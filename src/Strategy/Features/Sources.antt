-- ===== src/Strategy/Features/Sources.antt =====
-- Names of sources: normalizing a normalized name changes nothing, and merging lists of them gives
-- distinct names of the lists.
use gptrader_mw_v.Prelude.{
  ◌≡◌, refl, Bool, true, false, ◌||◌, String, eq_iff, eq_refl, List, [], ◌∷◌, ◌++◌, ok, is_blank,
  is_in, all_distinct, if◌then◌else◌, arith, strip-strip, strip-is_blank,
}
use gptrader_mw_v.Strategy.Features.{normalize_source, normalize_all, any_blank}
use gptrader_mw_v.Strategy.Features.Loading.{merge_sources, without}

-- Every name is as `normalize_source` leaves it.
unfoldable pub AreNormal : List String → Type 0
AreNormal [] = Unit
AreNormal (s ∷ ss) = (normalize_source s ≡ ok s) × AreNormal ss

pub normalize_source-normal : (s t : String) → normalize_source s ≡ ok t → normalize_source t ≡ ok t
unfolding normalize_source
normalize_source-normal s t h = ground (arith, h, strip-strip s)

normal-any_blank : (s : String) → normalize_source s ≡ ok s → is_blank s ≡ false
unfolding normalize_source
normal-any_blank s h = ground (arith, h, strip-is_blank s)

pub AreNormal-any_blank : (ss : List String) → AreNormal ss → any_blank ss ≡ false
unfolding AreNormal any_blank
AreNormal-any_blank [] normal = refl
AreNormal-any_blank (s ∷ ss) normal =
    ground (arith, normal-any_blank s normal.0, AreNormal-any_blank ss normal.1)

pub AreNormal-normalize_all : (ss : List String) → AreNormal ss → normalize_all ss ≡ ok ss
unfolding AreNormal normalize_all
AreNormal-normalize_all [] normal = refl
AreNormal-normalize_all (s ∷ ss) normal = rw (normal.0, AreNormal-normalize_all ss normal.1) refl

pub AreNormal-++ : (ss ts : List String) → AreNormal ss → AreNormal ts → AreNormal (ss ++ ts)
unfolding AreNormal
AreNormal-++ [] ts normal others = others
AreNormal-++ (s ∷ ss) ts normal others = (normal.0, AreNormal-++ ss ts normal.1 others)

pub without-AreNormal : (taken ss : List String) → AreNormal ss → AreNormal (without taken ss)
unfolding AreNormal without
without-AreNormal taken [] normal = tt
without-AreNormal taken (s ∷ ss) normal =
    by_cases (is_in s taken) (without-AreNormal taken ss normal.1)
  where
    by_cases :
        (b : Bool)
        → AreNormal (without taken ss)
        → AreNormal (if b then without taken ss else s ∷ without taken ss)
    by_cases true rest = rest
    by_cases false rest = (normal.0, rest)

pub merge_sources-AreNormal :
    (seen ss : List String) → AreNormal ss → AreNormal (merge_sources seen ss)
unfolding AreNormal merge_sources
merge_sources-AreNormal seen [] normal = tt
merge_sources-AreNormal seen (s ∷ ss) normal =
    by_cases (is_in s seen) (merge_sources-AreNormal seen ss normal.1)
      (merge_sources-AreNormal (s ∷ seen) ss normal.1)
  where
    by_cases :
        (b : Bool)
        → AreNormal (merge_sources seen ss)
        → AreNormal (merge_sources (s ∷ seen) ss)
        → AreNormal (if b then merge_sources seen ss else s ∷ merge_sources (s ∷ seen) ss)
    by_cases true skipped kept = skipped
    by_cases false skipped kept = (normal.0, kept)

-- A merged name is one of the list and none of those seen before.
pub merge_sources-is_in :
    (t : String) (seen ss : List String)
    → is_in t ss ≡ false
    → is_in t (merge_sources seen ss) ≡ false
unfolding merge_sources is_in
merge_sources-is_in t seen [] h = refl
merge_sources-is_in t seen (s ∷ ss) h =
    ground (arith, merge_sources-is_in t seen ss, merge_sources-is_in t (s ∷ seen) ss)

merge_sources-seen :
    (t : String) (seen ss : List String)
    → is_in t seen ≡ true
    → is_in t (merge_sources seen ss) ≡ false
unfolding merge_sources is_in
merge_sources-seen t seen [] h = refl
merge_sources-seen t seen (s ∷ ss) h =
    ground (
      arith,
      merge_sources-seen t seen ss,
      merge_sources-seen t (s ∷ seen) ss,
      eq_iff t s,
      eq_refl t,
    )

pub merge_sources-distinct : (seen ss : List String) → all_distinct (merge_sources seen ss) ≡ true
unfolding merge_sources all_distinct is_in
merge_sources-distinct seen [] = refl
merge_sources-distinct seen (s ∷ ss) = ground (
  arith,
  merge_sources-distinct seen ss,
  merge_sources-distinct (s ∷ seen) ss,
  merge_sources-seen s (s ∷ seen) ss,
  eq_refl s,
)

pub is_in-++ : (t : String) (ss us : List String) → is_in t (ss ++ us) ≡ (is_in t ss || is_in t us)
unfolding is_in
is_in-++ t [] us = refl
is_in-++ t (s ∷ ss) us = ground (arith, is_in-++ t ss us)

pub is_in-without :
    (t : String) (taken ss : List String)
    → is_in t taken ≡ true
    → is_in t (without taken ss) ≡ false
unfolding is_in without
is_in-without t taken [] h = refl
is_in-without t taken (s ∷ ss) h = ground (arith, is_in-without t taken ss, eq_iff t s)
