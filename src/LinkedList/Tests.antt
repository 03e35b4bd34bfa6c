-- ===== src/LinkedList/Tests.antt =====
-- A concrete list of three elements for the theorems on kernel/src/list.c.
use a_os.Base.{◌≡◌, refl, Bool, some, [], ◌∷◌, arith, ◌==◌}
use a_os.LinkedList.{Ptr, Links, DList, init, append, push, pop, remove, list_len, find, traversal}
use a_os.LinkedList.Shape.{has, Holds}
use a_os.LinkedList.Ops.{init-Holds, append-Holds, remove-Holds, Separate}
use a_os.LinkedList.Walk.{walks, first}

-- Two lists with ends 1, 2 and 3, 4.
abbrev waiters : DList
waiters = record { head = 1; tail = 2 }

abbrev readers : DList
readers = record { head = 3; tail = 4 }

abbrev blank : Links
blank = record { prev = λ _. 0; next = λ _. 0 }

abbrev start : Links
start = init blank waiters

start-Holds : Holds start waiters []
start-Holds = init-Holds blank waiters (ground arith)

one-Holds : Holds (append start waiters 10) waiters (10 ∷ [])
one-Holds = append-Holds start waiters [] start-Holds 10 refl

abbrev one : Links
one = append start waiters 10

abbrev two : Links
two = append one waiters 11

two-Holds : Holds two waiters (10 ∷ 11 ∷ [])
two-Holds = append-Holds one waiters (10 ∷ []) one-Holds 11 refl

remove-Holds_example : Holds (remove two 10) waiters (11 ∷ [])
remove-Holds_example = remove-Holds two waiters [] (11 ∷ []) 10 two-Holds

abbrev is_odd : Ptr → Bool
is_odd p = p == 11

walks_example :
    (list_len 3 two waiters ≡ some 2)
    × (find 3 two waiters 11 ≡ some (has 11 (10 ∷ 11 ∷ [])))
    × (traversal 3 two waiters is_odd ≡ some (first is_odd (10 ∷ 11 ∷ [])))
walks_example = walks two waiters (10 ∷ 11 ∷ []) two-Holds 3 11 is_odd (omega arith) (omega arith)

-- Both lists in one memory.
abbrev both : Links
both = append (init two readers) readers 20

both-waiters : Holds both waiters (10 ∷ 11 ∷ [])
unfolding append a_os.LinkedList.insert init
both-waiters = record {
  chain = (refl, refl, (refl, refl, (refl, refl)));
  distinct = (refl, (refl, (refl, (refl, tt))));
}

both-readers : Holds both readers (20 ∷ [])
unfolding append a_os.LinkedList.insert init
both-readers = record { chain = (refl, refl, (refl, refl)); distinct = (refl, (refl, (refl, tt))) }

apart_lists : Separate waiters (10 ∷ 11 ∷ []) readers (20 ∷ [])
apart_lists a i = ground arith
