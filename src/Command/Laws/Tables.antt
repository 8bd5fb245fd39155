-- ===== src/Command/Laws/Tables.antt =====
-- The invariant of the tables, and the commands that are not about segments.
use memtoy.Base.{
  Bool, ℕ, ◌≡◌, refl, ap, ◌∙◌, true, Option, none, some, List, [], ◌∷◌, Text, skip, strtok, strtoul,
  arith, if◌then◌else◌, Option-cases, inl, inr,
}
use memtoy.Context.{Kernel, Call, Context, tell}
use memtoy.Segment.Valid.Updates.{IsValid, IsValid-same}
use memtoy.Segment.Laws.Reach.{Reach, Reach-keeps}
use memtoy.Segment.Laws.Others.Steps.{Reach-Quiet}
use memtoy.Children.Laws.Reaping.{Fewer-distinct}
use memtoy.Children.Answers.{tone}
use memtoy.Children.Laws.Names.{distinct}
use memtoy.Args.Sizes.{whitespace}
use memtoy.Args.Masks.{
  ids, refused, wild, get_nodemask, get_cpuset_from_mask, get_cpuset_from_ids,
  get_current_nodeid_list,
}
use memtoy.Command.Nodes.{
  mask_of, refresh_mems_allowed, refresh_cpus_allowed, node_sizes, numa_info, top_node, allowed,
  get_current_nodemask, migrate_from, migrate_process,
}
use memtoy.Command.Policies.{
  words_of, has_hex, show_cpus, cpus, show_mems, mems_mask, mems, show_task_policy, mpol,
}

-- The table of segments is valid, and no two children have the same name.
pub record IsSound (c : Context) : Type 0 where
  pub valid : IsValid c
  pub names : distinct c.children ≡ true

-- The tables have not changed, and no answer has been given.
pub record SameTables (c d : Context) : Type 0 where
  pub same_seglist : d.seglist ≡ c.seglist
  pub same_avail : d.seg_avail ≡ c.seg_avail
  pub same_children : d.children ≡ c.children
  pub same_tone : tone d ≡ tone c

pub same-IsSound : (c d : Context) → SameTables c d → IsSound c → IsSound d
same-IsSound c d h s = record {
  valid = IsValid-same c d h.same_seglist h.same_avail s.valid;
  names = ap distinct h.same_children ∙ s.names;
}

pub Reach-IsSound :
    {touching : Bool} (k : Kernel) (c : Context) {d : Context}
    → Reach touching k c d
    → IsSound c
    → IsSound d
Reach-IsSound k c h s = record {
  valid = Reach-keeps k c s.valid h;
  names = Fewer-distinct (Reach-Quiet k c h).fewer s.names;
}

module _ (kernel : Kernel) where
  pub refresh_mems-same : (c d : Context) → refresh_mems_allowed kernel c ≡ some d → SameTables c d
  unfolding refresh_mems_allowed
  refresh_mems-same c d h = ground arith

  pub refresh_cpus-same : (c : Context) → SameTables c (refresh_cpus_allowed kernel c)
  unfolding refresh_cpus_allowed
  refresh_cpus-same c = ground arith

  node_sizes-same : (l : List ℕ) (c : Context) → SameTables c (node_sizes kernel l c).1
  unfolding node_sizes
  node_sizes-same [] c = ground arith
  node_sizes-same (n ∷ l) c = ground (arith, node_sizes-same l (tell (Call.numa_node_size n) c))

  pub numa_info-same : (c : Context) → SameTables c (numa_info kernel c).1
  unfolding numa_info
  numa_info-same c =
      let c1 = tell Call.calloc c in
      elim (Option-cases (refresh_mems_allowed kernel c1)) [
        | inl e ↦ ground arith
        | inr (c2, e) ↦
            let l = get_current_nodeid_list (top_node c) (allowed c2) in
            ground (arith, refresh_mems-same c1 c2 e, node_sizes-same l c2)
      ]

  current_nodemask-same :
      (c d : Context) (n bits : ℕ)
      → get_current_nodemask kernel c ≡ some (n, bits, d)
      → SameTables c d
  unfolding get_current_nodemask
  current_nodemask-same c d n bits h = elim (Option-cases (refresh_mems_allowed kernel c)) [
    | inl e ↦ ground arith
    | inr (c2, e) ↦ ground (arith, refresh_mems-same c c2 e)
  ]

  migrate_from-same :
      (new : ℕ) (args : Text) (c : Context) → SameTables c (migrate_from kernel new args c).1
  unfolding migrate_from
  migrate_from-same new args c = elim (Option-cases (get_current_nodemask kernel c)) [
    | inl e ↦ ground arith
    | inr ((n, bits, d), e) ↦ ground (arith, current_nodemask-same c d n bits e)
  ]

  pub migrate_process-same :
      (args : Text) (c : Context) → SameTables c (migrate_process kernel args c).1
  unfolding migrate_process
  migrate_process-same args c =
      let (idlist, more) = strtok whitespace args in
      elim (get_nodemask c.numa_max_node idlist)
          as (λ a.
            get_nodemask c.numa_max_node idlist ≡ a
            → SameTables c (migrate_process kernel args c).1) [
              | refused ↦ λ e. ground arith
              | wild ↦ λ e. ground arith
              | ids l ↦ λ e. ground (arith, migrate_from-same (mask_of l) (skip whitespace more) c)
            ]
        refl

  show_cpus-same : (c : Context) → SameTables c (show_cpus kernel c).2
  unfolding show_cpus
  show_cpus-same c = ground (arith, refresh_cpus-same c)

  pub cpus-same : (args : Text) (c : Context) → SameTables c (cpus kernel args c).2
  unfolding cpus
  cpus-same args c =
      let rest = skip whitespace args in
      let cpuset : Option ℕ =
        if has_hex kernel rest
        then (elim (get_cpuset_from_mask rest) [ none ↦ none | some l ↦ some (words_of l) ])
        else (elim (get_cpuset_from_ids c.max_cpu_id rest) [
          | none ↦ none
          | some l ↦ some (mask_of l)
        ]) in
      elim (Option-cases cpuset) [
        | inl e ↦ ground (arith, show_cpus-same c)
        | inr (bits, e) ↦
            ground (arith, show_cpus-same c, show_cpus-same (tell (Call.sched_setaffinity bits) c))
      ]

  show_mems-same : (c : Context) → SameTables c (show_mems kernel c).1
  unfolding show_mems
  show_mems-same c = elim (Option-cases (refresh_mems_allowed kernel c)) [
    | inl e ↦ ground arith
    | inr (c2, e) ↦ ground (arith, refresh_mems-same c c2 e)
  ]

  mems_mask-same : (args : Text) (c : Context) → SameTables c (mems_mask kernel args c).1
  unfolding mems_mask
  mems_mask-same args c =
      let c1 = tell (Call.numa_set_membind (strtoul 0 args).0) (tell Call.calloc c) in
      ground (arith, show_mems-same c1)

  pub mems-same : (args : Text) (c : Context) → SameTables c (mems kernel args c).1
  unfolding mems
  mems-same args c =
      let rest = skip whitespace args in
      elim (get_nodemask c.numa_max_node rest)
          as (λ a. get_nodemask c.numa_max_node rest ≡ a → SameTables c (mems kernel args c).1) [
            | refused ↦ λ e. ground (arith, show_mems-same c, mems_mask-same rest c)
            | wild ↦ λ e. ground (arith, show_mems-same c, mems_mask-same rest c)
            | ids l ↦ λ e. ground (
              arith,
              show_mems-same c,
              mems_mask-same rest c,
              show_mems-same (tell (Call.numa_set_membind (mask_of l)) c),
            )
          ]
        refl

  pub mpol-same : (args : Text) (c : Context) → SameTables c (mpol kernel args c).1
  unfolding mpol show_task_policy
  mpol-same args c = ground arith
