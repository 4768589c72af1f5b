-- ===== src/Files/Matching.antt =====
-- A matching of the keys of queries as the query library documents it: by prefixes.
use go_drive.Base.{
  String, true, false, none, some, [], ◌∷◌, ◌≡◌, refl, ◌==◌, Bool, Option, ◌↔◌, ap, ◌&&◌, eq_iff,
}
use go_drive.Files.Cache.{Part, text, null, filters, Key, IsPrefix}
use go_drive.Files.Search.{SearchFilters}

abbrev opt_eq : Option String → Option String → Bool
opt_eq none none = true
opt_eq (some a) (some b) = a == b
opt_eq _ _ = false

opt_eq_iff : (a b : Option String) → (opt_eq a b ≡ true) ↔ (a ≡ b)
opt_eq_iff none none = (λ e. refl, λ e. refl)
opt_eq_iff none (some b) = (λ e. cc, λ e. cc)
opt_eq_iff (some a) none = (λ e. cc, λ e. cc)
opt_eq_iff (some a) (some b) =
    (λ e. ap some ((eq_iff a b).0 e), λ e. (eq_iff a b).1 (some_injective e))
  where
    some_injective : some a ≡ some b → a ≡ b
    some_injective e = cc

abbrev filters_eq : SearchFilters → SearchFilters → Bool
filters_eq f g =
    opt_eq f.kind g.kind
    && opt_eq f.min_size g.min_size
    && opt_eq f.max_size g.max_size
    && opt_eq f.from g.from
    && opt_eq f.to g.to

and_split : (a b : Bool) → (a && b) ≡ true → (a ≡ true) × (b ≡ true)
and_split true b e = (refl, e)
and_split false b e = cc

filters_eq_iff : (f g : SearchFilters) → (filters_eq f g ≡ true) ↔ (f ≡ g)
filters_eq_iff f g = (
  λ e. same e,
  λ e. rw e (
      rw (opt_refl g.kind, opt_refl g.min_size, opt_refl g.max_size, opt_refl g.from, opt_refl g.to)
        refl),
)
  where
    opt_refl : (a : Option String) → opt_eq a a ≡ true
    opt_refl a = (opt_eq_iff a a).1 refl

    same : (filters_eq f g ≡ true) → f ≡ g
    same h =
        let (r, e) = and_split _ _ h in
        let (r, d) = and_split _ _ r in
        let (r, c) = and_split _ _ r in
        let (a, b) = and_split _ _ r in
        λ i. record {
          kind = (opt_eq_iff f.kind g.kind).0 a i;
          min_size = (opt_eq_iff f.min_size g.min_size).0 b i;
          max_size = (opt_eq_iff f.max_size g.max_size).0 c i;
          from = (opt_eq_iff f.from g.from).0 d i;
          to = (opt_eq_iff f.to g.to).0 e i;
        }

abbrev part_eq : Part → Part → Bool
part_eq (text a) (text b) = a == b
part_eq null null = true
part_eq (filters f) (filters g) = filters_eq f g
part_eq _ _ = false

part_eq_iff : (p q : Part) → (part_eq p q ≡ true) ↔ (p ≡ q)
part_eq_iff (text a) (text b) =
    (λ e. ap text ((eq_iff a b).0 e), λ e. (eq_iff a b).1 (text_injective e))
  where
    text_injective : text a ≡ text b → a ≡ b
    text_injective e = cc
part_eq_iff null null = (λ e. refl, λ e. refl)
part_eq_iff (filters f) (filters g) =
    (λ e. ap filters ((filters_eq_iff f g).0 e), λ e. (filters_eq_iff f g).1 (filters_injective e))
  where
    filters_injective : filters f ≡ filters g → f ≡ g
    filters_injective e = cc
part_eq_iff (text a) null = (λ e. cc, λ e. cc)
part_eq_iff (text a) (filters g) = (λ e. cc, λ e. cc)
part_eq_iff null (text b) = (λ e. cc, λ e. cc)
part_eq_iff null (filters g) = (λ e. cc, λ e. cc)
part_eq_iff (filters f) (text b) = (λ e. cc, λ e. cc)
part_eq_iff (filters f) null = (λ e. cc, λ e. cc)

abbrev pub begins : Key → Key → Bool
begins [] k = true
begins (p ∷ ps) [] = false
begins (p ∷ ps) (q ∷ qs) = part_eq p q && begins ps qs

pub begins_iff : (f k : Key) → (begins f k ≡ true) ↔ IsPrefix f k
begins_iff [] k = (λ e. tt, λ h. refl)
begins_iff (p ∷ ps) [] = (λ e. cc, λ h. absurd h)
begins_iff (p ∷ ps) (q ∷ qs) = (
  λ e. ((part_eq_iff p q).0 ((and_split _ _ e).0), (begins_iff ps qs).0 ((and_split _ _ e).1)),
  λ h. rw ((part_eq_iff p q).1 h.0, (begins_iff ps qs).1 h.1) refl,
)
