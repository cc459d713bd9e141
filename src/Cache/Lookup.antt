-- ===== src/Cache/Lookup.antt =====
-- What `BundleCache::get` returns, and in which order it leaves the entries.
use hansa.Prelude.{
  ℕ, ◌+◌, ◌≡◌, refl, ap, ◌∙◌, subst, Bool, true, false, ◌&&◌, Option, none, some, List, [], ◌∷◌,
  ◌++◌, append_assoc, append-nil, arith, if◌then◌else◌, length, length-append, All, All-append,
}
use hansa.Floats.{Floats, IsOrdered}
use hansa.Cache.{Entry, find_best, is_better, dot}

module _ (f : Floats) (Bundle : Type 0) (threshold : f.F32) (unit : List f.F32) where
  open f use {F32, lt, ge}

  abbrev score_of : Entry f Bundle → F32
  score_of e = dot f Bundle unit e.centre_unit

  -- Too far from the query.
  abbrev pub IsFar : Entry f Bundle → Type 0
  IsFar e = ge (dot f Bundle unit e.centre_unit) threshold ≡ false

  -- Not a better match than one with score `s`.
  abbrev pub IsNoBetter : F32 → Entry f Bundle → Type 0
  IsNoBetter s e =
      (ge (dot f Bundle unit e.centre_unit) threshold && lt s (dot f Bundle unit e.centre_unit))
      ≡ false

  -- The entry at `idx` of `es` is a match with score `s`, and none is better.
  pub record IsBest (es : List (Entry f Bundle)) (idx : ℕ) (s : F32) : Type 0 where
    pub before : List (Entry f Bundle)
    pub found : Entry f Bundle
    pub behind : List (Entry f Bundle)
    pub splits : es ≡ before ++ found ∷ behind
    pub at : length before ≡ idx
    pub scored : dot f Bundle unit found.centre_unit ≡ s
    pub similar : ge s threshold ≡ true
    pub no_better : All (IsNoBetter s) es

  abbrev pub Choice : List (Entry f Bundle) → Option (ℕ × F32) → Type 0
  Choice es none = All IsFar es
  Choice es (some (idx, s)) = IsBest es idx s

  module _ (order : IsOrdered f) where
    raise_the_bar :
        (s s' : F32) (es : List (Entry f Bundle))
        → lt s s' ≡ true
        → All (IsNoBetter s) es
        → All (IsNoBetter s') es
    raise_the_bar s s' [] h a = tt
    raise_the_bar s s' (e ∷ es) h a =
        (ground (arith, a.0, order.lt_trans s s' (score_of e) h), raise_the_bar s s' es h a.1)

    far-IsNoBetter : (s : F32) (es : List (Entry f Bundle)) → All IsFar es → All (IsNoBetter s) es
    far-IsNoBetter s [] a = tt
    far-IsNoBetter s (e ∷ es) a = (ground (arith, a.0), far-IsNoBetter s es a.1)

    choose_new :
        (es : List (Entry f Bundle)) (e : Entry f Bundle)
        → ge (score_of e) threshold ≡ true
        → All (IsNoBetter (score_of e)) es
        → IsBest (es ++ e ∷ []) (length es) (score_of e)
    choose_new es e near a = record {
      before = es;
      found = e;
      behind = [];
      splits = refl;
      at = refl;
      scored = refl;
      similar = near;
      no_better = All-append _ es (e ∷ []) a (ground (arith, order.lt_irrefl (score_of e)), tt);
    }

    choose :
        (es : List (Entry f Bundle)) (e : Entry f Bundle) (best : Option (ℕ × F32)) (b : Bool)
        → (ge (score_of e) threshold && is_better f Bundle (score_of e) best) ≡ b
        → Choice es best
        → Choice (es ++ e ∷ []) (if b then some (length es, score_of e) else best)
    unfolding is_better
    choose es e none true h a =
        choose_new es e (ground (arith, h)) (far-IsNoBetter (score_of e) es a)
    choose es e none false h a = All-append _ es (e ∷ []) a (ground (arith, h), tt)
    choose es e (some (idx, s)) true h a =
        choose_new es e (ground (arith, h))
          (raise_the_bar s (score_of e) es (ground (arith, h)) a.no_better)
    choose es e (some (idx, s)) false h a = record {
      before = a.before;
      found = a.found;
      behind = a.behind ++ e ∷ [];
      splits =
          ap (λ xs. xs ++ e ∷ []) a.splits ∙ append_assoc a.before (a.found ∷ a.behind) (e ∷ []);
      at = a.at;
      scored = a.scored;
      similar = a.similar;
      no_better = All-append _ es (e ∷ []) a.no_better (h, tt);
    }

    -- After its loop `get` holds the best of all the entries.
    pub find_best-Choice :
        (done es : List (Entry f Bundle)) (best : Option (ℕ × F32))
        → Choice done best
        → Choice (done ++ es) (find_best f Bundle threshold unit (length done) es best)
    unfolding find_best
    find_best-Choice done [] best a = rw (append-nil done) a
    find_best-Choice done (e ∷ es) best a =
        let next =
          if ge (score_of e) threshold && is_better f Bundle (score_of e) best
          then some (length done, score_of e)
          else best in
        let size : length (done ++ e ∷ []) ≡ length done + 1 =
          omega (arith, length-append done (e ∷ [])) in
        let step : Choice (done ++ e ∷ []) next = choose done e best _ refl a in
        subst (λ xs. Choice xs (find_best f Bundle threshold unit (length done + 1) es next))
          (append_assoc done (e ∷ []) es)
          (subst
            (λ n. Choice ((done ++ e ∷ []) ++ es) (find_best f Bundle threshold unit n es next))
            size (find_best-Choice (done ++ e ∷ []) es next step))
