-- ===== src/Segment/Laws/Loading.antt =====
-- `segment_init`: the table that the program starts with.
use memtoy.Base.{
  ℕ, ◌≡◌, refl, ap, ◌∙◌, false, Option, none, some, List, [], ◌∷◌, Text, arith, Option-cases, inl,
  inr,
}
use memtoy.Context.{
  Range, SegType, Kernel, Call, value, Context, tell, returned, exited, killed, crashed, is_none,
}
use memtoy.Base.Lines.{chunks}
use memtoy.Segment.Register.{segment_register}
use memtoy.Segment.Maps.{
  mapbufsz, classify_segment, MapsLine, scan_line, maps_path, cut_last, maps_range, maps_flags,
  register_maps, load_line, load_lines, get_task_segments, segment_init,
}
use memtoy.Segment.Valid.Updates.{IsValid}
use memtoy.Segment.Valid.Lookup.{view, lookup}
use memtoy.Segment.Register.{basename}
use memtoy.Segment.Laws.Removal.{is_own}
use memtoy.Segment.Laws.Registration.{
  segment_register-IsValid, segment_register-Entered, segment_register-duplicate,
}
use memtoy.Segment.Laws.Reach.{Step, Reach, start, step, empty_table, empty_table-IsValid}

classify_segment-type :
    (perm path : Text) (ino : ℕ) → is_none (classify_segment perm path ino).0 ≡ false
unfolding classify_segment
classify_segment-type perm path ino = ground arith

-- What a registration keeps, the loading of the maps keeps.
module _ (kernel : Kernel) (P : Context → Type 0)
    (keep : (m : MapsLine) (input path : Text) (c : Context)
      → P c
      → P (register_maps kernel m input path c).1) where
  load_line-keeps : (chunk : Text) (c : Context) → P c → P (load_line kernel chunk c).1
  unfolding load_line
  load_line-keeps chunk c h =
      let input = cut_last chunk in
      elim (Option-cases (scan_line input)) [
        | inl e ↦ rw (e, load_line) h
        | inr (m, e) ↦ elim (Option-cases (maps_path input)) [
          | inl k ↦ ground arith
          | inr (path, k) ↦ ground (arith, keep m input path c h)
        ]
      ]

  load_lines-keeps : (l : List Text) (c : Context) → P c → P (load_lines kernel l c).1
  unfolding load_lines
  load_lines-keeps [] c h = h
  load_lines-keeps (chunk ∷ r) c h =
      let (out, c1) = load_line kernel chunk c in
      let h1 = load_line-keeps chunk c h in
      elim out as (λ o. (load_line kernel chunk c).0 ≡ o → P (load_lines kernel (chunk ∷ r) c).1) [
        | returned b ↦ λ e. rw (e, load_lines) (load_lines-keeps r c1 h1)
        | exited code ↦ λ e. rw (e, load_lines) h1
        | killed sig ↦ λ e. rw (e, load_lines) h1
        | crashed f ↦ λ e. rw (e, load_lines) h1
      ]
        refl

  segment_init-keeps :
      (maps : Option Text) (c : Context) {v : ℕ}
      → kernel c.trace Call.calloc ≡ value v
      → P (empty_table (tell Call.calloc c))
      → P (segment_init kernel maps c).1
  unfolding segment_init get_task_segments
  segment_init-keeps none c e h = rw (e, segment_init) h
  segment_init-keeps (some s) c e h =
      rw (e, segment_init)
        (load_lines-keeps (chunks mapbufsz s) (empty_table (tell Call.calloc c)) h)

-- The table is valid, and no name stands for a segment of the user's own.
pub record HasOnlyMaps (c : Context) : Type 0 where
  pub valid : IsValid c
  pub none_own : (n : Text) → is_own (view c n) ≡ false

module _ (kernel : Kernel) where
  register-HasOnlyMaps :
      (type : SegType) (name : Text) (r : Range) (c : Context)
      → is_none type ≡ false
      → HasOnlyMaps c
      → HasOnlyMaps (segment_register kernel type name r maps_flags c).1
  register-HasOnlyMaps type name r c t h =
      let valid = segment_register-IsValid kernel type name r maps_flags c h.valid t in
      elim (Option-cases (view c (basename name))) [
        | inl e ↦ elim (segment_register-Entered kernel type name r maps_flags c h.valid t e) [
          | inl (o, s, sn, st, sf, all) ↦ record {
            valid = valid;
            none_own = λ n. ground (arith, all n, h.none_own n);
          }
          | inr (o, all) ↦ record {
            valid = valid;
            none_own = λ n. ap is_own (all n) ∙ h.none_own n;
          }
        ]
        | inr (s, e) ↦
            let all = (segment_register-duplicate kernel type name r maps_flags c h.valid e).1 in
            record { valid = valid; none_own = λ n. ap is_own (all n) ∙ h.none_own n }
      ]

  register_maps-HasOnlyMaps :
      (m : MapsLine) (input path : Text) (c : Context)
      → HasOnlyMaps c
      → HasOnlyMaps (register_maps kernel m input path c).1
  unfolding register_maps
  register_maps-HasOnlyMaps m input path c h =
      let (type, name) = classify_segment m.perm path m.ino in
      let next =
        register-HasOnlyMaps type name (maps_range m) c (classify_segment-type m.perm path m.ino)
          h in
      ground arith

  register_maps-Reach :
      (c0 : Context) (m : MapsLine) (input path : Text) (c : Context)
      → Reach false kernel c0 c
      → Reach false kernel c0 (register_maps kernel m input path c).1
  unfolding register_maps
  register_maps-Reach c0 m input path c h =
      let (type, name) = classify_segment m.perm path m.ino in
      let next : Reach false kernel c0
          (segment_register kernel type name (maps_range m) maps_flags c).1 =
        step h (
          Step.register type name (maps_range m) maps_flags
            (classify_segment-type m.perm path m.ino)) in
      ground arith

  -- Where the table can be allocated, whatever the file of the maps holds: the table that the program
  -- starts with is valid, and no name stands for a segment that could be removed.
  pub segment_init-HasOnlyMaps :
      (maps : Option Text) (c : Context) {v : ℕ}
      → kernel c.trace Call.calloc ≡ value v
      → HasOnlyMaps (segment_init kernel maps c).1
  unfolding lookup
  segment_init-HasOnlyMaps maps c e =
      segment_init-keeps kernel HasOnlyMaps register_maps-HasOnlyMaps maps c e
        (record { valid = empty_table-IsValid (tell Call.calloc c); none_own = λ n. refl })

  -- The start only makes calls of the segment API.
  pub segment_init-Reach :
      (maps : Option Text) (c : Context) {v : ℕ}
      → kernel c.trace Call.calloc ≡ value v
      → Reach false kernel (empty_table (tell Call.calloc c)) (segment_init kernel maps c).1
  segment_init-Reach maps c e =
      let c0 = empty_table (tell Call.calloc c) in
      segment_init-keeps kernel (Reach false kernel c0) (register_maps-Reach c0) maps c e start
