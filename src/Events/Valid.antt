-- ===== src/Events/Valid.antt =====
-- What an event that passes the validation satisfies, and when the validation throws.
use upstat.Common.{
  ℕ, String, ◌≡◌, refl, ◌↔◌, ◌⊎◌, inl, inr, true, Option, none, some, List, [], arith, eq_iff,
  nat_eq, string_eq, ◌==◌, Bool-cases, Option-cases, is_some, includes, Failure, Result, ok, err,
  Dict, get, put, get-put,
}
use upstat.ConfigCache.{RegistryEvent, Library}
use upstat.Events.{
  Json, Fields, no_fields, field, field_of, text, object, Event, Checked, rejected, passed,
  inherited, built_in, check_named, check_event, check_dims, check_dim, check_value, dims_from,
  fits_dim, in_range, instant_of, allowed_dims, is_ineligible, name_of, not_iterable, validate,
  null, boolean, number, array,
}

pub Verdict-cases :
    (r : Result (Checked Event))
    → ((e : Failure) × (r ≡ err e))
      ⊎ ((c : _) × (r ≡ ok (rejected c)))
      ⊎ ((e : Event) × (r ≡ ok (passed e)))
Verdict-cases (err e) = inl (e, refl)
Verdict-cases (ok (rejected c)) = inr (inl (c, refl))
Verdict-cases (ok (passed e)) = inr (inr (e, refl))

Checked-cases :
    {A : Type 0} (r : Checked A) → ((c : _) × (r ≡ rejected c)) ⊎ ((a : A) × (r ≡ passed a))
Checked-cases (rejected c) = inl (c, refl)
Checked-cases (passed a) = inr (a, refl)

-- Every dimension that is kept is allowed and fits.
abbrev pub Fit : List String → Dict String → Type 0
Fit allowed dims =
    (k v : String) → get dims k ≡ some v → (includes k allowed ≡ true) × (fits_dim k v ≡ true)

check_dim-passed :
    (allowed : List String) (k : String) (j : Json) (v : String)
    → check_dim allowed k j ≡ passed v
    → (includes k allowed ≡ true) × (fits_dim k v ≡ true)
unfolding check_dim
check_dim-passed allowed k (text s) v e = ground arith
check_dim-passed allowed k null v e = ground arith
check_dim-passed allowed k (boolean b) v e = ground arith
check_dim-passed allowed k (number f s) v e = ground arith
check_dim-passed allowed k (array items) v e = ground arith
check_dim-passed allowed k (object fs) v e = ground arith

Fit-put :
    (allowed : List String) (dims : Dict String) (k s : String)
    → (includes k allowed ≡ true) × (fits_dim k s ≡ true)
    → Fit allowed dims
    → Fit allowed (put dims k s)
Fit-put allowed dims k s fits all j v e = elim (Bool-cases (k == j)) [
  | inl same ↦ ground (arith, same, get-put dims k j s, eq_iff k j)
  | inr apart ↦ all j v (ground (arith, apart, get-put dims k j s))
]

dims_from-Fit :
    (allowed : List String) (dims : Dict String) (fields : Fields) (kept : Dict String)
    → Fit allowed dims
    → dims_from allowed dims fields ≡ passed kept
    → Fit allowed kept
unfolding dims_from
dims_from-Fit allowed dims no_fields kept all e = let same : dims ≡ kept = cc in rw (← same) all
dims_from-Fit allowed dims (field k j rest) kept all e =
    elim (Checked-cases (check_dim allowed k j)) [
      | inl (c, bad) ↦ absurd (ground (arith, bad))
      | inr (s, good) ↦
          dims_from-Fit allowed (put dims k s) rest kept
            (Fit-put allowed dims k s (check_dim-passed allowed k j s good) all)
            (rw (good, dims_from) at e)
    ]

nil-Fit : (allowed : List String) → Fit allowed []
unfolding get
nil-Fit allowed k v held = cc

check_dims-Fit :
    (allowed : List String) (j : Option Json) (kept : Dict String)
    → check_dims allowed j ≡ passed kept
    → Fit allowed kept
check_dims-Fit allowed none kept e = let same : [] ≡ kept = cc in rw (← same) (nil-Fit allowed)
check_dims-Fit allowed (some null) kept e = absurd cc
check_dims-Fit allowed (some (boolean b)) kept e = absurd cc
check_dims-Fit allowed (some (number f s)) kept e = absurd cc
check_dims-Fit allowed (some (text s)) kept e = absurd cc
check_dims-Fit allowed (some (array is)) kept e = absurd cc
check_dims-Fit allowed (some (object fs)) kept e =
    dims_from-Fit allowed [] fs kept (nil-Fit allowed) e

-- What the gateway takes as an event of an organisation: a name that it registered or that is built
-- in, an instant in range, dimensions of the vocabulary, and the registry's word on visitors.
pub record IsAdmitted (event : String → Option RegistryEvent) (now : ℕ) (e : Event) : Type 0 where
  pub known : (is_some (event e.name) ≡ true) ⊎ (is_some (built_in e.name) ≡ true)
  pub in_time : in_range now e.ts ≡ true
  pub fit : Fit (allowed_dims (event e.name) (built_in e.name)) e.dims
  pub eligibility : e.ineligible ≡ is_ineligible (event e.name)

check_event-passed :
    (lib : Library) (now : ℕ) (name : String) (registered : Option RegistryEvent)
    (allowed : List String) (fs : Fields) (e : Event)
    → check_event lib now name registered allowed fs ≡ passed e
    → (e.name ≡ name)
      × (in_range now e.ts ≡ true)
      × Fit allowed e.dims
      × (e.ineligible ≡ is_ineligible registered)
unfolding check_event
check_event-passed lib now name registered allowed fs e h =
    elim (Option-cases (instant_of lib now (field_of "ts" fs))) [
      | inl bad ↦ absurd (ground (arith, bad))
      | inr (ts, good) ↦ elim (Bool-cases (in_range now ts)) [
        | inr late ↦ absurd (ground (arith, good, late))
        | inl timely ↦ elim (Checked-cases (check_dims allowed (field_of "dims" fs))) [
          | inl (c, wrong) ↦ absurd (ground (arith, good, timely, wrong))
          | inr (dims, fine) ↦ elim (Checked-cases (check_value (field_of "value" fs))) [
            | inl (c, wrong) ↦ absurd (ground (arith, good, timely, fine, wrong))
            | inr (value, finite) ↦
                let built : Event = record {
                  name = name;
                  ts = ts;
                  dims = dims;
                  value = value;
                  ineligible = is_ineligible registered;
                } in
                let same : built ≡ e = ground (arith, good, timely, fine, finite) in
                rw (← same)
                  (refl, timely, check_dims-Fit allowed (field_of "dims" fs) dims fine, refl)
          ]
        ]
      ]
    ]

check_named-passed :
    (lib : Library) (now : ℕ) (name : String) (registered : Option RegistryEvent) (fs : Fields)
    (e : Event)
    → check_named lib now name registered fs ≡ ok (passed e)
    → ((is_some registered ≡ true) ⊎ (is_some (built_in name) ≡ true))
      × (check_event lib now name registered (allowed_dims registered (built_in name)) fs
          ≡ passed e)
unfolding check_named
check_named-passed lib now name registered fs e h = elim (Bool-cases (includes name inherited)) [
  | inl poisoned ↦
      let failed : err not_iterable ≡ ok (passed e) = rw (poisoned, check_named) at h in absurd cc
  | inr own ↦
      let step = rw (own, check_named) at h in
      elim (Bool-cases (is_some registered)) [
        | inl there ↦ let checked = rw there at step in (inl there, cc)
        | inr absent ↦ elim (Bool-cases (is_some (built_in name))) [
          | inl there ↦ let checked = rw (absent, there) at step in (inr there, cc)
          | inr absent' ↦ let wrong = rw (absent, absent') at step in absurd cc
        ]
      ]
]

module _ (lib : Library) (event : String → Option RegistryEvent) (now : ℕ) where
  object-IsAdmitted :
      (name : String) (fs : Fields) (e : Event)
      → check_named lib now name (event name) fs ≡ ok (passed e)
      → IsAdmitted event now e
  object-IsAdmitted name fs e h =
      let (known, checked) = check_named-passed lib now name (event name) fs e h in
      let (named, timely, fits, eligible) =
        check_event-passed lib now name (event name) (allowed_dims (event name) (built_in name)) fs
          e checked in
      record {
        known = rw named known;
        in_time = timely;
        fit = rw named fits;
        eligibility = rw named eligible;
      }

  -- An event that passes: the organisation registered its name or it is built in; its instant is at
  -- most 48 hours old and 5 minutes ahead; each dimension that is kept is of the vocabulary, and
  -- its value fits; and it is kept from visitors exactly as the registry says.
  pub validate-IsAdmitted :
      (raw : Json) (e : Event) → validate lib event now raw ≡ ok (passed e) → IsAdmitted event now e
  unfolding validate
  validate-IsAdmitted (object fs) e h = elim (Option-cases (name_of (field_of "name" fs))) [
    | inl unnamed ↦ absurd (ground (arith, unnamed))
    | inr (name, named) ↦ object-IsAdmitted name fs e (rw (named, validate) at h)
  ]
  validate-IsAdmitted null e h = absurd (ground arith)
  validate-IsAdmitted (boolean b) e h = absurd (ground arith)
  validate-IsAdmitted (number f s) e h = absurd (ground arith)
  validate-IsAdmitted (text s) e h = absurd (ground arith)
  validate-IsAdmitted (array is) e h = absurd (ground arith)

-- An event whose name is a property that every object inherits.
pub record IsPoisoned (raw : Json) : Type 0 where
  pub fields : Fields
  pub name : String
  pub as_object : raw ≡ object fields
  pub named : name_of (field_of "name" fields) ≡ some name
  pub from_prototype : includes name inherited ≡ true

module _ (lib : Library) (event : String → Option RegistryEvent) (now : ℕ) where
  named-throws :
      (name : String) (fs : Fields) (e : Failure)
      → check_named lib now name (event name) fs ≡ err e
      → includes name inherited ≡ true
  unfolding check_named
  named-throws name fs e h = elim (Bool-cases (includes name inherited)) [
    | inl poisoned ↦ poisoned
    | inr own ↦
        let step = rw (own, check_named) at h in
        elim (Bool-cases (is_some (event name))) [
          | inl there ↦ let checked = rw there at step in absurd cc
          | inr absent ↦ elim (Bool-cases (is_some (built_in name))) [
            | inl there ↦ let checked = rw (absent, there) at step in absurd cc
            | inr absent' ↦ let wrong = rw (absent, absent') at step in absurd cc
          ]
        ]
  ]

  pub poisoned-throws :
      (raw : Json) → IsPoisoned raw → validate lib event now raw ≡ err not_iterable
  unfolding validate check_named
  poisoned-throws raw p = ground (arith, p.as_object, p.named, p.from_prototype)

  throws-IsPoisoned :
      (raw : Json) (e : Failure) → validate lib event now raw ≡ err e → IsPoisoned raw
  unfolding validate check_named
  throws-IsPoisoned (object fs) e h = elim (Option-cases (name_of (field_of "name" fs))) [
    | inl unnamed ↦ absurd (ground (arith, unnamed))
    | inr (name, named) ↦ record {
      fields = fs;
      name = name;
      as_object = refl;
      named = named;
      from_prototype = named-throws name fs e (rw (named, validate) at h);
    }
  ]
  throws-IsPoisoned null e h = absurd (ground arith)
  throws-IsPoisoned (boolean b) e h = absurd (ground arith)
  throws-IsPoisoned (number f s) e h = absurd (ground arith)
  throws-IsPoisoned (text s) e h = absurd (ground arith)
  throws-IsPoisoned (array is) e h = absurd (ground arith)

  -- The validation throws exactly on an event whose name is one of the properties that every
  -- object inherits, such as `constructor`; on all other values it returns a verdict.
  pub validate-throws_iff :
      (raw : Json) → (validate lib event now raw ≡ err not_iterable) ↔ IsPoisoned raw
  validate-throws_iff raw = (throws-IsPoisoned raw not_iterable, poisoned-throws raw)
