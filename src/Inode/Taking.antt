-- ===== src/Inode/Taking.antt =====
-- A free block becomes a block of a file that had none there: the file's bytes stay the same.
use a_os.Base.{
  ℕ, ◌+◌, ◌*◌, ◌/◌, ◌%◌, ◌≤◌, ◌<◌, ◌≡◌, ◌≢◌, refl, sym, ap, ◌∙◌, true, false, ◌==◌, set, length-set,
  get_or-set_self, get_or-set_ne, arith, Bool-cases, inl, inr,
}
use mathlib.Core.Path.{subst}
use a_os.Bitmap.{check}
use a_os.Inode.{Inode, Volume}
use a_os.Inode.Blocks.{BlkAcquired}
use a_os.Inode.Content.{lba_of, content}
use a_os.Inode.Owned.{Holder, Owned, Stores, free_blocks, free_below, free_below-one}

module _ (v v' : Volume) (i : Inode) (own : Owned v i) (idx b : ℕ) (lt : idx < 12)
    (a : BlkAcquired v b v') (hole : lba_of i idx ≡ 0) where
  -- The LBA of the block that was taken.
  abbrev taken : ℕ
  taken = v.blk_lba + b * 8

  abbrev pub with_lba : Inode
  with_lba = record i { i_block = set i.i_block idx taken }

  pub lba_same : lba_of with_lba idx ≡ taken
  lba_same = get_or-set_self i.i_block idx taken 0 (omega (arith, own.array))

  pub lba_other : (k : ℕ) → idx ≢ k → lba_of with_lba k ≡ lba_of i k
  lba_other k ne = get_or-set_ne i.i_block idx k taken 0 ne

  base_same : v'.blk_lba ≡ v.blk_lba
  base_same = ap (λ (w : Volume). w.blk_lba) a.rest

  free_before : check v.blk_btmp b ≡ false
  free_before = a.fit.free b (omega arith) (omega arith)

  -- A block in use before is another one.
  used_other : (c : ℕ) → check v.blk_btmp c ≡ true → c ≢ b
  used_other c used e =
      let now : check v.blk_btmp c ≡ false = rw e free_before in ground (arith, used, now)

  taken_fresh : (k : ℕ) → k < 12 → lba_of i k ≢ taken
  taken_fresh k lk e =
      let pos = own.base in
      let h = own.holder k lk (omega arith) in used_other h.block h.used (omega (arith, h.lba_is))

  held : (lba : ℕ) → Holder v lba → Holder v' lba
  held lba h = record {
    block = h.block;
    inside = omega (arith, h.inside, a.same_len);
    used = ground (arith, a.bits h.block, h.used);
    lba_is = omega (arith, h.lba_is, base_same);
  }

  taken_held : Holder v' taken
  taken_held = record {
    block = b;
    inside = omega (arith, a.fit.inside, a.same_len);
    used = ground (arith, a.bits b);
    lba_is = omega (arith, base_same);
  }

  with_lba-Owned : Owned v' with_lba
  with_lba-Owned = record {
    base = omega (arith, own.base, base_same);
    array = length-set i.i_block idx taken ∙ own.array;
    holder = λ k lk ne. elim (Bool-cases (idx == k)) [
      | inl hit ↦ let e : idx ≡ k = ground arith in rw (← e, lba_same) taken_held
      | inr miss ↦
          let o = lba_other k (ground arith) in
          rw o (held (lba_of i k) (own.holder k lk (λ z. ne (o ∙ z))))
    ];
    distinct = λ j k lj lk ne nz same. elim (Bool-cases (idx == j)) [
      | inl hit ↦
          let e : idx ≡ j = ground arith in
          let o = lba_other k (ground arith) in
          let at : lba_of with_lba j ≡ taken = rw (← e) lba_same in
          taken_fresh k lk (sym o ∙ sym same ∙ at)
      | inr miss ↦
          let oj = lba_other j (ground arith) in
          elim (Bool-cases (idx == k)) [
            | inl hit ↦
                let e : idx ≡ k = ground arith in
                let at : lba_of with_lba k ≡ taken = rw (← e) lba_same in
                taken_fresh j lj (sym oj ∙ same ∙ at)
            | inr miss' ↦
                own.distinct j k lj lk ne (λ z. nz (oj ∙ z))
                  (sym oj ∙ same ∙ lba_other k (ground arith))
          ]
    ];
  }

  taken-bytes : (p : ℕ) → p < 49152 → content v'.disk with_lba p ≡ content v.disk i p
  taken-bytes p small = elim (Bool-cases (idx == p / 4096)) [
    | inl hit ↦
        let e : idx ≡ p / 4096 = ground arith in
        let nothing : lba_of i (p / 4096) ≡ 0 = rw (← e) hole in
        let now : lba_of with_lba (p / 4096) ≡ taken = rw (← e) lba_same in
        let pos : (taken == 0) ≡ false = let z = own.base in ground arith in
        rw (now, pos, nothing) (a.zeroed (p % 4096) (omega arith))
    | inr miss ↦
        let o = lba_other (p / 4096) (ground arith) in
        rw o (elim (Bool-cases (lba_of i (p / 4096) == 0)) [
          | inl none ↦ rw none refl
          | inr there ↦
              let h = own.holder (p / 4096) (omega arith) (ground arith) in
              rw (there, h.lba_is)
                (a.others h.block (p % 4096) (used_other h.block h.used) (omega arith))
        ])
  ]

  still_there : (k : ℕ) → lba_of i k ≢ 0 → lba_of with_lba k ≢ 0
  still_there k ne = elim (Bool-cases (idx == k)) [
    | inl hit ↦ let e : idx ≡ k = ground arith in absurd (ne (rw (← e) hole))
    | inr miss ↦ λ z. ne (sym (lba_other k (ground arith)) ∙ z)
  ]

  pub taken-Stores : Stores v i v' with_lba (content v.disk i) 1
  taken-Stores = record {
    valid = a.valid;
    owned = with_lba-Owned;
    bytes = taken-bytes;
    foreign = λ c f. record {
      inside = omega (arith, f.inside, a.same_len);
      used = ground (arith, a.bits c, f.used);
      other = λ k lk same. elim (Bool-cases (idx == k)) [
        | inl hit ↦
            let e : idx ≡ k = ground arith in
            let at : lba_of with_lba k ≡ taken = rw (← e) lba_same in
            used_other c f.used (omega (arith, same, at, base_same))
        | inr miss ↦ f.other k lk (omega (arith, lba_other k (ground arith), same, base_same))
      ];
    };
    kept = λ c k f lk. a.others c k (used_other c f.used) lk;
    grows = still_there;
    rest = refl;
    volume_rest = a.rest;
    front = a.front;
    free =
        subst (λ n. free_blocks v ≤ free_below (n * 8) v'.blk_btmp + 1) (sym a.same_len)
          (free_below-one (v.blk_btmp.len * 8) v.blk_btmp v'.blk_btmp b a.bits);
  }
