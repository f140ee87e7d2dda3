-- ===== src/Limits/Apart.antt =====
-- Each key has a limiter of its own.
use web_gobbler.Prelude.{
  ℕ, String, str_eq, str_eq_iff_to, str_eq_iff_from, Bool, false, Option, none, some, List, [], ◌∷◌,
  ◌≡◌, refl, sym, ap, subst, ◌∙◌, inl, inr, arith, Bool-cases, if◌then◌else◌,
}
use web_gobbler.Limits.{Rate, Limiters, find, store, admit, clean_up}

module _ {L : Type 0} where
  find-store : (key : String) (l : L) (m : Limiters L) → find key (store key l m) ≡ some l
  unfolding find store
  find-store key l [] = rw (str_eq_iff_from key key refl) refl
  find-store key l (entry ∷ rest) = elim (Bool-cases (str_eq entry.0 key)) [
    | inl same ↦ ground (arith, same, str_eq_iff_from key key refl)
    | inr other ↦ ground (arith, other, find-store key l rest)
  ]

  find-store_other :
      (key other : String) (l : L) (m : Limiters L)
      → str_eq key other ≡ false
      → find other (store key l m) ≡ find other m
  unfolding find store
  find-store_other key other l [] apart = ground (arith, apart)
  find-store_other key other l (entry ∷ rest) apart = elim (Bool-cases (str_eq entry.0 key)) [
    | inl same ↦
        let entry_apart : str_eq entry.0 other ≡ false =
          ap (λ k. str_eq k other) (str_eq_iff_to entry.0 key same) ∙ apart in
        ground (arith, same, apart, entry_apart)
    | inr differs ↦ ground (arith, differs, find-store_other key other l rest apart)
  ]

  find-nil : (key : String) → find {L = L} key [] ≡ none
  unfolding find
  find-nil key = refl

-- What happens to the limiters of the API: a request of an address at an instant, and a tick of the
-- clean-up.
pub data Event : Type 0 where
  request : ℕ → String → Event
  tick : Event

module _ {L : Type 0} (rate : Rate L) where
  -- Whether each request of one address was let through, when all addresses share the map.
  unfoldable pub seen_by : String → List Event → Limiters L → List Bool
  seen_by ip [] m = []
  seen_by ip (tick ∷ evs) m = seen_by ip evs (clean_up rate m)
  seen_by ip (request now from ∷ evs) m =
      let (allowed, m') = admit rate now from m in
      let rest = seen_by ip evs m' in if str_eq from ip then allowed ∷ rest else rest

  abbrev or_new : Option L → L
  or_new none = rate.new_limiter
  or_new (some l) = l

  -- The same for an address that has a limiter to itself, which a tick makes a new one.
  unfoldable pub alone : String → List Event → Option L → List Bool
  alone ip [] l = []
  alone ip (tick ∷ evs) l = alone ip evs none
  alone ip (request now from ∷ evs) l =
      let (allowed, l') = rate.allow now (or_new l) in
      let mine = alone ip evs (some l') in
      let rest = alone ip evs l in if str_eq from ip then allowed ∷ mine else rest

  -- Whatever other addresses ask, in any order and with any ticks between, an address is let
  -- through exactly where a limiter of its own, new after each tick, lets it through.
  pub seen_by-alone :
      (ip : String) (evs : List Event) (m : Limiters L)
      → seen_by ip evs m ≡ alone ip evs (find ip m)
  unfolding seen_by alone
  seen_by-alone ip [] m = refl
  seen_by-alone ip (tick ∷ evs) m = seen_by-alone ip evs [] ∙ ap (alone ip evs) (find-nil ip)
  seen_by-alone ip (request now from ∷ evs) m = elim (Bool-cases (str_eq from ip)) [
    | inl mine ↦
        let same = str_eq_iff_to from ip mine in
        let used = rate.allow now (or_new (find ip m)) in
        subst (λ f. seen_by ip (request now f ∷ evs) m ≡ alone ip (request now f ∷ evs) (find ip m))
          (sym same)
          (rw (str_eq_iff_from ip ip refl) (
            ap (λ r. used.0 ∷ r)
              (seen_by-alone ip evs (store ip used.1 m)
                ∙ ap (alone ip evs) (find-store ip used.1 m))))
    | inr other ↦
        let used = rate.allow now (or_new (find from m)) in
        rw other (
          seen_by-alone ip evs (store from used.1 m)
          ∙ ap (alone ip evs) (find-store_other from ip used.1 m other))
  ]
