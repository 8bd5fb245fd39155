-- ===== src/Startup/Starting.antt =====
-- The tables after `init_glctx`.
use memtoy.Base.{◌≡◌, refl, ◌∙◌, Option, some, [], Text, arith, Option-cases, inl, inr}
use memtoy.Context.{Kernel, Call, Reply-cases, Context, sys, tell}
use memtoy.Segment.Maps.{segment_init}
use memtoy.Segment.Valid.Updates.{IsValid, IsValid-same}
use memtoy.Segment.Laws.Reach.{empty_table, empty_table-IsValid, Reach-keeps}
use memtoy.Segment.Laws.Others.Steps.{Reach-Quiet}
use memtoy.Children.Laws.Reaping.{Fewer-empty}
use memtoy.Segment.Laws.Loading.{segment_init-Reach}
use memtoy.Command.Nodes.{refresh_mems_allowed}
use memtoy.Command.Laws.Tables.{SameTables, refresh_mems-same, refresh_cpus-same}
use memtoy.Startup.{
  check_terminal, answer, zeroed, commands_init, init_nodes, init_tables, init_glctx,
  get_huge_pagesize,
}

-- The table is valid and there are no children.
pub record IsFresh (c : Context) : Type 0 where
  pub valid : IsValid c
  pub childless : c.children ≡ []

pub same-IsFresh : (c d : Context) → SameTables c d → IsFresh c → IsFresh d
same-IsFresh c d s h = record {
  valid = IsValid-same c d s.same_seglist s.same_avail h.valid;
  childless = s.same_children ∙ h.childless;
}

zeroed-IsFresh : IsFresh zeroed
zeroed-IsFresh = record { valid = empty_table-IsValid zeroed; childless = refl }

module _ (kernel : Kernel) where
  commands_init-same : (c d : Context) → commands_init kernel c ≡ some d → SameTables c d
  unfolding commands_init
  commands_init-same c d h = elim (Option-cases (refresh_mems_allowed kernel c)) [
    | inl e ↦ ground arith
    | inr (c1, e) ↦ ground (arith, refresh_mems-same kernel c c1 e, refresh_cpus-same kernel c1)
  ]

  -- The first calls of the program do not touch the tables.
  init_nodes-same : (c : Context) → SameTables c (init_nodes kernel c)
  unfolding init_nodes
  init_nodes-same c = ground arith

  segment_init-IsFresh :
      (maps : Option Text) (c : Context) → IsFresh c → IsFresh (segment_init kernel maps c).1
  unfolding segment_init
  segment_init-IsFresh maps c h =
      let c1 = tell Call.calloc c in
      let h1 : IsFresh c1 = same-IsFresh c c1 (ground arith) h in
      elim (Reply-cases (kernel c.trace Call.calloc)) [
        | inl (e, k) ↦ rw (k, segment_init) h1
        | inr (v, k) ↦
            let reach = segment_init-Reach kernel maps c k in
            record {
              valid = Reach-keeps kernel (empty_table c1) (empty_table-IsValid c1) reach;
              childless = Fewer-empty (Reach-Quiet kernel (empty_table c1) reach).fewer h.childless;
            }
      ]

  check_terminal-IsFresh : (c : Context) → IsFresh c → IsFresh (check_terminal kernel c)
  unfolding check_terminal
  check_terminal-IsFresh c h = record {
    valid = IsValid-same c (check_terminal kernel c) refl refl h.valid;
    childless = refl;
  }

  init_tables-IsFresh :
      (maps : Option Text) (c : Context) → IsFresh c → IsFresh (init_tables kernel maps c).1
  unfolding init_tables
  init_tables-IsFresh maps c h = elim (Option-cases (commands_init kernel c)) [
    | inl e ↦ rw (e, init_tables) h
    | inr (c1, e) ↦
        let h1 = same-IsFresh c c1 (commands_init-same c c1 e) h in
        let c2 = (segment_init kernel maps c1).1 in
        let h2 = segment_init-IsFresh maps c1 h1 in
        let h3 = check_terminal-IsFresh c2 h2 in rw (e, init_tables) (ground arith)
  ]

  pub init_glctx-IsFresh : (meminfo maps : Option Text) → IsFresh (init_glctx kernel meminfo maps).1
  unfolding init_glctx
  init_glctx-IsFresh meminfo maps =
      let (pagesize, c1) = sys kernel Call.sysconf_pagesize zeroed in
      let c2 = record c1 { pagesize = answer pagesize } in
      let h2 = same-IsFresh zeroed c2 (ground arith) zeroed-IsFresh in
      elim (Option-cases (get_huge_pagesize meminfo 0)) [
        | inl e ↦ rw (e, init_glctx) h2
        | inr (size, e) ↦
            let c3 = record c2 { huge_pagesize = size } in
            let h3 = same-IsFresh c2 c3 (ground arith) h2 in
            let c4 = init_nodes kernel c3 in
            let h4 = same-IsFresh c3 c4 (init_nodes-same c3) h3 in
            let c5 = tell Call.getrlimit c4 in
            let h5 = same-IsFresh c4 c5 (ground arith) h4 in
            let h6 = init_tables-IsFresh maps c5 h5 in rw (e, init_glctx) (ground arith)
      ]
