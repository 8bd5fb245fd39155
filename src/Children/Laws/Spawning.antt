-- ===== src/Children/Laws/Spawning.antt =====
-- `child_spawn`: what it does to the list of children.
use memtoy.Base.{
  ℕ, zero, suc, ◌≡◌, ◌≢◌, ◌⊎◌, refl, ap, ◌∙◌, true, false, none, List, [], ◌∷◌, ◌++◌, Text, arith,
  Bool-cases, Option-cases, inl, inr, skip, is_empty,
}
use memtoy.Context.{Child, Kernel, Call, Reply, tell, failed, value, Reply-cases, Context}
use memtoy.Args.Sizes.{whitespace}
use memtoy.Command.Common.{cmd_success, cmd_error, first_arg}
use memtoy.Children.{find_by_name}
use memtoy.Children.Spawn.{
  Spawned, in_parent, in_child, child_exits, read_end, write_end, start_child, fork_child,
  make_child, child_spawn,
}
use memtoy.Children.Laws.Names.{has_child, distinct, distinct-append}
use memtoy.Children.Laws.Freeing.{emptied}

-- The list of children in the process that goes on.
abbrev pub after_spawn : Spawned → List Child
after_spawn (in_parent out c) = c.children
after_spawn (in_child c) = c.children
after_spawn (child_exits code c) = []

-- The lists of children after `child_spawn` under a new name: the parent's list with a child of this
-- name and without errors at its end, after a success, which ends with the reading of its first
-- answer; the same list, after a failure; an empty list in a new process that goes on, and the parent's
-- list in one that exits, with code 1.
abbrev pub Spawns : Text → Context → Spawned → Type 0
Spawns name c (in_parent out c') =
    ((out ≡ cmd_success)
      × (ch : Child) × (ch.c_name ≡ name)
      × (ch.c_errs ≡ 0)
      × (c'.children ≡ c.children ++ ch ∷ [])
      × (calls : List Call) × (c'.trace ≡ Call.read ch.c_rfd ∷ calls))
    ⊎ ((out ≢ cmd_success) × (c'.children ≡ c.children))
Spawns name c (in_child c') = c'.children ≡ []
Spawns name c (child_exits code c') = (code ≡ 1) × (c'.children ≡ c.children)

Spawns-distinct :
    (name : Text) (c : Context) (s : Spawned)
    → find_by_name name c.children ≡ none
    → distinct c.children ≡ true
    → Spawns name c s
    → distinct (after_spawn s) ≡ true
Spawns-distinct name c (in_parent out c') h d (inl (o, ch, en, er, e, calls, w)) =
    rw e (distinct-append c.children ch (ap (λ n. find_by_name n c.children) en ∙ h) d)
Spawns-distinct name c (in_parent out c') h d (inr (o, e)) = rw e d
Spawns-distinct name c (in_child c') h d e = rw e refl
Spawns-distinct name c (child_exits code c') h d e = refl

pub Answer-cases :
    (r : Reply) → ((e : ℕ) × (r ≡ failed e)) ⊎ ((r ≡ value 0) ⊎ ((n : ℕ) × (r ≡ value (suc n))))
Answer-cases (failed e) = inl (e, refl)
Answer-cases (value zero) = inr (inl refl)
Answer-cases (value (suc n)) = inr (inr (n, refl))

module _ (kernel : Kernel) where
  start_child-Spawns :
      (name : Text) (p q : ℕ) (c0 c : Context)
      → c.children ≡ c0.children
      → Spawns name c0 (start_child kernel name p q c)
  unfolding start_child
  start_child-Spawns name p q c0 c same =
      elim (Answer-cases (kernel c.trace (Call.dup2 (read_end p) 0))) [
        | inl (e, h) ↦ rw (h, start_child) (refl, same)
        | inr (inl h) ↦ rw (h, start_child) (emptied _)
        | inr (inr (n, h)) ↦ rw (h, start_child) (refl, same)
      ]

  fork_child-Spawns :
      (name : Text) (p q : ℕ) (c0 c : Context)
      → c.children ≡ c0.children
      → Spawns name c0 (fork_child kernel name p q c)
  unfolding fork_child
  fork_child-Spawns name p q c0 c h = elim (Answer-cases (kernel c.trace Call.fork)) [
    | inl (e, k) ↦ rw (k, fork_child) (inr ((λ x. cc), h))
    | inr (inl k) ↦ rw (k, fork_child) (start_child-Spawns name p q c0 (tell Call.fork c) h)
    | inr (inr (n, k)) ↦
        let ch : Child = record {
          c_name = name;
          c_pid = suc n;
          c_cfd = write_end p;
          c_rfd = read_end q;
          c_errs = 0;
        } in
        rw (k, fork_child) (inl (refl, ch, refl, refl, ap (λ l. l ++ ch ∷ []) h, _, refl))
  ]

  make_child-Spawns : (name : Text) (c : Context) → Spawns name c (make_child kernel name c)
  unfolding make_child
  make_child-Spawns name c =
      let c1 = tell Call.calloc c in
      let c2 = tell Call.pipe c1 in
      elim (Reply-cases (kernel c.trace Call.calloc)) [
        | inl (e, h) ↦ rw (h, make_child) (inr ((λ x. cc), refl))
        | inr (v, h) ↦ elim (Reply-cases (kernel c1.trace Call.pipe)) [
          | inl (e, k) ↦ rw (h, make_child) (rw (k, make_child) (inr ((λ x. cc), refl)))
          | inr (p, k) ↦ elim (Reply-cases (kernel c2.trace Call.pipe)) [
            | inl (e, m) ↦
                rw (h, make_child) (rw (k, make_child) (rw (m, make_child) (inr ((λ x. cc), refl))))
            | inr (q, m) ↦
                rw (h, make_child)
                  (rw (k, make_child)
                    (rw (m, make_child) (fork_child-Spawns name p q c (tell Call.pipe c2) refl)))
          ]
        ]
      ]

  -- Where there is an argument: a name in use is refused, and nothing changes. Under a new name a
  -- child with it and without errors is added at the end of the parent's list and an answer of it is
  -- read, or that list stays and the status is not a success; the list of a new process that goes on is
  -- empty, and one that exits, with code 1, keeps the parent's list.
  pub child_spawn-Spawns :
      (args : Text) (c : Context)
      → is_empty (skip whitespace args) ≡ false
      → let name = (first_arg (skip whitespace args)).0 in
        ((has_child name c.children ≡ true) × (child_spawn kernel args c ≡ in_parent cmd_error c))
        ⊎ ((find_by_name name c.children ≡ none) × Spawns name c (child_spawn kernel args c))
  unfolding child_spawn
  child_spawn-Spawns args c e =
      let name = (first_arg (skip whitespace args)).0 in
      elim (Option-cases (find_by_name name c.children)) [
        | inl h ↦
            let eq : child_spawn kernel args c ≡ make_child kernel name c = ground arith in
            inr (h, rw eq (make_child-Spawns name c))
        | inr (ch, h) ↦ inl (rw (h, has_child) refl, ground arith)
      ]

  -- A list without a name twice stays one.
  pub child_spawn-distinct :
      (args : Text) (c : Context)
      → distinct c.children ≡ true
      → distinct (after_spawn (child_spawn kernel args c)) ≡ true
  unfolding child_spawn
  child_spawn-distinct args c d =
      let out = child_spawn kernel args c in
      let name = (first_arg (skip whitespace args)).0 in
      elim (Bool-cases (is_empty (skip whitespace args))) [
        | inl e ↦ (let eq : out ≡ in_parent cmd_error c = ground arith in rw eq d)
        | inr e ↦ elim (Option-cases (find_by_name name c.children)) [
          | inl h ↦
              let eq : out ≡ make_child kernel name c = ground arith in
              rw eq
                (Spawns-distinct name c (make_child kernel name c) h d (make_child-Spawns name c))
          | inr (ch, h) ↦ (let eq : out ≡ in_parent cmd_error c = ground arith in rw eq d)
        ]
      ]
