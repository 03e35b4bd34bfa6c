-- ===== src/Memory/Pages.antt =====
-- `page_acquire` where the frames run out.
use mathlib.Core.Path.{subst}
use a_os.Base.{
  ℕ, zero, suc, ◌*◌, ◌/◌, ◌<◌, ◌≡◌, refl, Bool, true, false, Option, none, some, arith,
  if◌then◌else◌, ◌∙◌, ap,
}
use a_os.Base.Words.{sub32}
use a_os.Bitmap
use a_os.Bitmap.Marked.{within}
use a_os.Memory.{
  Mem, VPool, PPool, PoolFlags, kernel, user, p_pool, v_pool, set_p_pool, set_v_pool, pg_size,
  palloc, map_pages, page_acquire, vaddr_acquire,
}
use a_os.Memory.Pool.{page-index, IsPool, Palloc, palloc-Palloc}
use a_os.Memory.Virtual.{IsVPool, Vacquired, vaddr_acquire-Vacquired}

p_pool-set_v_pool :
    (pf : PoolFlags) (m : Mem) (vp : VPool) → p_pool pf (set_v_pool pf m vp) ≡ p_pool pf m
unfolding p_pool set_v_pool
p_pool-set_v_pool kernel m vp = refl
p_pool-set_v_pool user m vp = refl

v_pool-set :
    (pf : PoolFlags) (m : Mem) (vp : VPool) (pp : PPool)
    → v_pool pf (set_p_pool pf (set_v_pool pf m vp) pp) ≡ vp
unfolding v_pool set_v_pool set_p_pool
v_pool-set kernel m vp pp = refl
v_pool-set user m vp pp = refl

-- Every frame of a pool is in use.
abbrev pub Full : PPool → Type 0
Full pp = (i : ℕ) → i < pp.paddr_bitmap.len * 8 → Bitmap.check pp.paddr_bitmap i ≡ true

palloc-Full : (pp : PPool) → IsPool pp → Full pp → palloc pp ≡ (none, pp)
palloc-Full pp a full = step (palloc pp) refl (palloc-Palloc pp a)
  where
    step : (r : Option ℕ × PPool) → palloc pp ≡ r → Palloc pp r → palloc pp ≡ (none, pp)
    step (none, pp') e (same, _) = e ∙ ap (λ x. (none, x)) same
    step (some p, pp') e h =
        let i = page-index pp.paddr_start pp.paddr_bitmap p a h.0 in
        let used = full (sub32 p pp.paddr_start / pg_size) i.1 in absurd (ground (arith, h.1, used))

marks :
    (p : VPool) (n : ℕ) {start : ℕ} {vp : VPool}
    → IsVPool p
    → 0 < n
    → vaddr_acquire p none n ≡ some (some start, vp)
    → (s : ℕ) × ((i : ℕ)
        → Bitmap.check vp.vaddr_bitmap i
          ≡ (if within s n i then true else Bitmap.check p.vaddr_bitmap i))
marks p n {start} {vp} v pos e =
    let (r, done, h) = vaddr_acquire-Vacquired p n v pos in
    let same : r ≡ (some start, vp) = ground (arith, done, e) in
    let h' : Vacquired p n (some start, vp) = subst (Vacquired p n) same h in (h'.0, h'.4.bits)

map_pages_stop :
    (n : ℕ) (pf : PoolFlags) (m : Mem) (start : ℕ) {pp : PPool}
    → palloc (p_pool pf m) ≡ (none, pp)
    → map_pages (suc n) pf m start ≡ (false, set_p_pool pf m pp)
unfolding map_pages
map_pages_stop n pf m start e = ground arith

-- In well-formed pools with no frame left, `page_acquire` of a positive number of pages anywhere
-- answers NULL in either pool, but the run of virtual pages that it has found stays marked.
pub page_acquire-Full :
    (pf : PoolFlags) (m : Mem) (n : ℕ) {start : ℕ} {vp : VPool}
    → IsVPool (v_pool pf m)
    → IsPool (p_pool pf m)
    → 0 < n
    → Full (p_pool pf m)
    → vaddr_acquire (v_pool pf m) none n ≡ some (some start, vp)
    → (m' : Mem) × (page_acquire pf m none n ≡ some (none, m'))
      × (v_pool pf m' ≡ vp)
      × ((s : ℕ) × ((i : ℕ)
            → Bitmap.check vp.vaddr_bitmap i
              ≡ (if within s n i then true else Bitmap.check (v_pool pf m).vaddr_bitmap i)))
unfolding page_acquire
page_acquire-Full pf m zero v a pos full e = absurd (omega arith)
page_acquire-Full pf m (suc n) {start} {vp} v a pos full e =
    let m1 = set_v_pool pf m vp in
    let frame : palloc (p_pool pf m1) ≡ (none, p_pool pf m) =
      ap palloc (p_pool-set_v_pool pf m vp) ∙ palloc-Full (p_pool pf m) a full in
    let m' = set_p_pool pf m1 (p_pool pf m) in
    let stop : map_pages (suc n) pf m1 start ≡ (false, m') = map_pages_stop n pf m1 start frame in
    (
      m',
      rw (e, page_acquire)
          (ap (λ (r : Bool × Mem). some (if r.0 then some start else none, r.1)) stop),
      v_pool-set pf m vp (p_pool pf m),
      marks (v_pool pf m) (suc n) v pos e,
    )
