-- ===== src/Segment/Laws/Asking.antt =====
-- The operations that ask the system or list segments, and the invariant of the table.
use memtoy.Base.{
  ℕ, zero, suc, ◌+◌, ◌%◌, ◌^◌, ◌*◌, ◌/◌, ◌||◌, ◌==◌, ◌≡◌, refl, Bool, not, Option, none, some, List,
  Text, first, arith, word, ◌⊎◌, Option-cases, Bool-cases, inl, inr, if◌then◌else◌,
}
use memtoy.Context.{
  Range, Kernel, Call, Context, Reply-cases, segment_at, put_segment, tell, map_failed,
  default_length,
}
use memtoy.Signals.{reset_signal}
use memtoy.Segment.Slots.{segment_get}
use memtoy.Segment.Round.{clip}
use memtoy.Segment.Ranges.{segment_mbind, segment_lock_unlock, segment_range, segment_mprotect}
use memtoy.Segment.Show.{get_node, location_loop, segment_location, segment_show}
use memtoy.Segment.Valid.Updates.{IsValid, IsValid-same}
use memtoy.Segment.Valid.Get.{segment_get-IsValid}
use memtoy.Segment.Valid.Free.{put_segment-IsValid}
use memtoy.Segment.Laws.Removal.{found_facts}
use memtoy.Segment.Laws.Access.{SameTable}

module _ (kernel : Kernel) where
  pub segment_mbind-same :
      (name : Text) (r : Range) (policy : ℕ) (mask : Option (List ℕ)) (flags : ℕ) (c : Context)
      → SameTable (segment_get kernel name c).1 (segment_mbind kernel name r policy mask flags c).1
  unfolding segment_mbind
  segment_mbind-same name r policy mask flags c = (ground arith, ground arith)

  pub segment_lock_unlock-same :
      (name : Text) (r : Range) (lock shm : Bool) (c : Context)
      → SameTable (segment_get kernel name c).1 (segment_lock_unlock kernel name r lock shm c).1
  unfolding segment_lock_unlock
  segment_lock_unlock-same name r lock shm c = (ground arith, ground arith)

  pub segment_range-same :
      (name : Text) (c : Context)
      → SameTable (segment_get kernel name c).1 (segment_range kernel name c).1
  unfolding segment_range
  segment_range-same name c = (ground arith, ground arith)

  pub segment_mprotect-IsValid :
      (name : Text) (prot : ℕ) (c : Context)
      → IsValid c
      → IsValid (segment_mprotect kernel name prot c).1
  unfolding segment_mprotect
  segment_mprotect-IsValid name prot c v =
      let g = segment_get kernel name c in
      let v1 : IsValid g.1 = segment_get-IsValid kernel name c v in
      let out = segment_mprotect kernel name prot c in
      elim (Option-cases g.0) [
        | inl e ↦ (let eq : out.1 ≡ g.1 = ground arith in rw eq v1)
        | inr (p, e) ↦
            let (lt, en, u, w) = found_facts kernel name c e in
            let s = segment_at g.1 p in
            let call = Call.mprotect s.seg_start s.seg_length prot in
            elim (Reply-cases (kernel g.1.trace call)) [
              | inl (err, h) ↦
                  let eq : out.1 ≡ tell call g.1 = ground arith in
                  rw eq (IsValid-same g.1 (tell call g.1) refl refl v1)
              | inr (ok, h) ↦
                  let eq : out.1 ≡ put_segment p (record s { seg_prot = prot }) (tell call g.1) =
                    ground arith in
                  rw eq (
                    put_segment-IsValid p (record s { seg_prot = prot }) (tell call g.1) refl refl
                      refl lt (IsValid-same g.1 (tell call g.1) refl refl v1))
            ]
      ]

  location_loop-same :
      (rounds apage end pagesize pgid : ℕ) (need_nl : Bool) (c0 c : Context)
      → SameTable c0 c
      → SameTable c0 (location_loop kernel rounds apage end pagesize pgid need_nl c).2
  unfolding location_loop get_node reset_signal
  location_loop-same zero apage end pagesize pgid need_nl c0 c h = h
  location_loop-same (suc rounds) apage end pagesize pgid need_nl c0 c h =
      let call = Call.get_mempolicy apage in
      let ih =
        location_loop-same rounds ((apage + pagesize) % word) end pagesize ((pgid + 1) % 2 ^ 32)
          (need_nl || (pgid % 8 == 0)) c0 (tell call c) h in
      (ground (arith, ih.0, h.0), ground (arith, ih.1, h.1))

  -- `segment_location` ends where the search of the name does, or the loop over the pages.
  pub segment_location-ends :
      (P : Context → Type 0) (rounds : ℕ) (name : Text) (r : Range) (c : Context)
      → let c1 = (segment_get kernel name c).1 in
        P c1
        → ((apage end pagesize pgid : ℕ) (need_nl : Bool)
            → P (location_loop kernel rounds apage end pagesize pgid need_nl c1).2)
        → P (segment_location kernel rounds name r c).2
  unfolding segment_location
  segment_location-ends P rounds name r c found looped =
      let g = segment_get kernel name c in
      let out = segment_location kernel rounds name r c in
      elim (Option-cases g.0) [
        | inl e ↦ (let eq : out.2 ≡ g.1 = ground arith in rw eq found)
        | inr (p, e) ↦
            let s = segment_at g.1 p in
            let r' = record r {
              length = if r.length == default_length then 64 * s.seg_pagesize % word else r.length;
            } in
            elim (Bool-cases ((s.seg_start == map_failed) || (s.seg_pagesize == 0))) [
              | inl m ↦ (let eq : out.2 ≡ g.1 = ground arith in rw eq found)
              | inr m ↦ elim (Option-cases (clip r' s)) [
                | inl n ↦ (let eq : out.2 ≡ g.1 = ground arith in rw eq found)
                | inr (range, n) ↦
                    let apage = (s.seg_start + range.0) % word in
                    let end = (apage + range.1) % word in
                    let pgid = range.0 / s.seg_pagesize % 2 ^ 32 in
                    let nl = not (pgid % 8 == 0) in
                    let l = location_loop kernel rounds apage end s.seg_pagesize pgid nl g.1 in
                    let eq : out.2 ≡ l.2 = ground arith in
                    rw eq (looped apage end s.seg_pagesize pgid nl)
              ]
            ]
      ]

  pub segment_location-same :
      (rounds : ℕ) (name : Text) (r : Range) (c : Context)
      → SameTable (segment_get kernel name c).1 (segment_location kernel rounds name r c).2
  segment_location-same rounds name r c =
      let c1 = (segment_get kernel name c).1 in
      segment_location-ends (SameTable c1) rounds name r c (refl, refl)
        (λ apage end pagesize pgid nl.
          location_loop-same rounds apage end pagesize pgid nl c1 c1 (refl, refl))

  -- Without a name or with one that begins with `+` nothing is searched.
  pub segment_show-same :
      (name : Option Text) (c : Context)
      → (SameTable c (segment_show kernel name c).2)
        ⊎ ((n : Text) × SameTable (segment_get kernel n c).1 (segment_show kernel name c).2)
  unfolding segment_show
  segment_show-same none c = inl (refl, refl)
  segment_show-same (some name) c = elim (Bool-cases (first name == b'+')) [
    | inl e ↦ inl (ground arith, ground arith)
    | inr e ↦ inr (name, (ground arith, ground arith))
  ]
