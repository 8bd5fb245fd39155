-- ===== src/Command/Laws/Migrating.antt =====
-- `migrate` from the text of its arguments to the call of the system.
use memtoy.Base.{
  ℕ, ◌^◌, ◌<◌, ◌≡◌, refl, ap, ◌∙◌, Bool, true, false, not, ◌&&◌, some, List, [], ◌∷◌, ◌++◌, Text,
  is_empty, skip, take_until, drop_until, strtok, word, arith,
}
use memtoy.Base.Decimals.{
  decimal, all_digits, all_digits-decimal, strtoul-decimal, end_value, comma_value,
}
use memtoy.Context.{Kernel, Context}
use memtoy.Args.Sizes.{whitespace}
use memtoy.Args.Masks.{ids, get_nodemask}
use memtoy.Args.Laws.Lists.{comma_list, onto, all_within, get_nodemask-comma_list}
use memtoy.Command.Common.{numa_supported}
use memtoy.Command.Nodes.{mask_of, migrate_call, migrate_from, migrate_process}

abbrev no_blank : Text → Bool
no_blank [] = true
no_blank (ch ∷ s) = not (whitespace ch) && no_blank s

no_blank-append : (s t : Text) → no_blank s ≡ true → no_blank t ≡ true → no_blank (s ++ t) ≡ true
no_blank-append [] t h k = k
no_blank-append (ch ∷ s) t h k = ground (arith, no_blank-append s t)

no_blank-digits : (s : Text) → all_digits s ≡ true → no_blank s ≡ true
no_blank-digits [] h = refl
no_blank-digits (ch ∷ s) h = ground (arith, no_blank-digits s)

no_blank-comma_list : (n : ℕ) (l : List ℕ) → no_blank (comma_list n l) ≡ true
no_blank-comma_list n [] =
    no_blank-append (decimal n) [] (no_blank-digits (decimal n) (all_digits-decimal n)) refl
no_blank-comma_list n (m ∷ l) =
    no_blank-append (decimal n) (b',' ∷ comma_list m l)
      (no_blank-digits (decimal n) (all_digits-decimal n)) (no_blank-comma_list m l)

skip-no_blank : (s : Text) → no_blank s ≡ true → skip whitespace s ≡ s
unfolding skip
skip-no_blank [] h = refl
skip-no_blank (ch ∷ s) h = ground arith

take_until-blank : (s t : Text) → no_blank s ≡ true → take_until whitespace (s ++ 32 ∷ t) ≡ s
unfolding take_until
take_until-blank [] t h = refl
take_until-blank (ch ∷ s) t h = ground (arith, take_until-blank s t)

drop_until-blank : (s t : Text) → no_blank s ≡ true → drop_until whitespace (s ++ 32 ∷ t) ≡ 32 ∷ t
unfolding drop_until
drop_until-blank [] t h = refl
drop_until-blank (ch ∷ s) t h = ground (arith, drop_until-blank s t)

take_until-all : (s : Text) → no_blank s ≡ true → take_until whitespace s ≡ s
unfolding take_until
take_until-all [] h = refl
take_until-all (ch ∷ s) h = ground (arith, take_until-all s)

skip-token :
    (s t : Text) → no_blank s ≡ true → is_empty s ≡ false → skip whitespace (s ++ t) ≡ s ++ t
unfolding skip
skip-token [] t h e = absurd (ground arith)
skip-token (ch ∷ s) t h e = ground arith

front-append : (s t : Text) → is_empty s ≡ false → is_empty (s ++ t) ≡ false
front-append [] t h = absurd (ground arith)
front-append (ch ∷ s) t h = refl

strtok-two :
    (s t : Text) → no_blank s ≡ true → is_empty s ≡ false → strtok whitespace (s ++ 32 ∷ t) ≡ (s, t)
unfolding strtok
strtok-two s t h e =
    rw (skip-token s (32 ∷ t) h e) (rw (take_until-blank s t h) (rw (drop_until-blank s t h) refl))

strtok-one : (s : Text) → no_blank s ≡ true → (strtok whitespace s).0 ≡ s
unfolding strtok
strtok-one s h = rw (skip-no_blank s h) (take_until-all s h)

comma_list-front : (n : ℕ) (l : List ℕ) → n < word → is_empty (comma_list n l) ≡ false
comma_list-front n [] h = (strtoul-decimal 10 n [] refl h end_value).2
comma_list-front n (m ∷ l) h = (strtoul-decimal 10 n (b',' ∷ comma_list m l) refl h comma_value).2

migrate_process-token :
    (kernel : Kernel) (args s t : Text) (l : List ℕ) (c : Context)
    → numa_supported c ≡ true
    → strtok whitespace args ≡ (s, t)
    → is_empty args ≡ false
    → is_empty (skip whitespace args) ≡ false
    → get_nodemask c.numa_max_node s ≡ ids l
    → migrate_process kernel args c ≡ migrate_from kernel (mask_of l) (skip whitespace t) c
unfolding migrate_process
migrate_process-token kernel args s t l c supported token front behind read = ground arith

module _ (kernel : Kernel) (top : ℕ) (nodes : 0 < top) (small : top < 2 ^ 31) (c : Context)
    (numa : c.numa_max_node ≡ some top) where
  migrate_from-list :
      (new m : ℕ) (k : List ℕ)
      → all_within top (m ∷ k) ≡ true
      → migrate_from kernel new (comma_list m k) c
        ≡ migrate_call kernel (mask_of (onto [] (m ∷ k))) new c
  unfolding migrate_from
  migrate_from-list new m k h =
      let s = comma_list m k in
      let plain = no_blank-comma_list m k in
      let some_left = comma_list-front m k (ground arith) in
      let token : (strtok whitespace s).0 ≡ s = strtok-one s plain in
      let read = get_nodemask-comma_list top m k small h in
      rw (some_left, token, numa, read, migrate_from) refl

  -- With a highest node above 0 and below 2^31: two lists of nodes up to it, in decimal with commas
  -- and a blank between the lists, make `migrate` ask for the migration from the nodes of the second list
  -- to those of the first.
  pub migrate_process-lists :
      (n m : ℕ) (l k : List ℕ)
      → all_within top (n ∷ l) ≡ true
      → all_within top (m ∷ k) ≡ true
      → migrate_process kernel (comma_list n l ++ 32 ∷ comma_list m k) c
        ≡ migrate_call kernel (mask_of (onto [] (m ∷ k))) (mask_of (onto [] (n ∷ l))) c
  migrate_process-lists n m l k h1 h2 =
      let s = comma_list n l in
      let t = comma_list m k in
      let args = s ++ 32 ∷ t in
      let plain = no_blank-comma_list n l in
      let some_left = comma_list-front n l (ground arith) in
      let token : strtok whitespace args ≡ (s, t) = strtok-two s t plain some_left in
      let front : is_empty args ≡ false = front-append s (32 ∷ t) some_left in
      let behind : is_empty (skip whitespace args) ≡ false =
        ap is_empty (skip-token s (32 ∷ t) plain some_left) ∙ front in
      let supported : numa_supported c ≡ true = rw numa (ground arith) in
      let read : get_nodemask c.numa_max_node s ≡ ids (onto [] (n ∷ l)) =
        rw numa (get_nodemask-comma_list top n l small h1) in
      let rest : skip whitespace t ≡ t = skip-no_blank t (no_blank-comma_list m k) in
      let first_list : migrate_process kernel args c
          ≡ migrate_from kernel (mask_of (onto [] (n ∷ l))) (skip whitespace t) c =
        migrate_process-token kernel args s t (onto [] (n ∷ l)) c supported token front behind
          read in
      first_list
      ∙ ap (λ u. migrate_from kernel (mask_of (onto [] (n ∷ l))) u c) rest
      ∙ migrate_from-list (mask_of (onto [] (n ∷ l))) m k h2
