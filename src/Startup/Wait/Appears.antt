-- ===== src/Startup/Wait/Appears.antt =====
-- When the loop of `waitForAPI` of main.go invokes its action.
use codeflare_operator.Base.{
  ◌≡◌, refl, sym, ap, ◌↔◌, ◌⊎◌, inl, inr, String, true, ◌&&◌, none, some, List, [], ◌∷◌, ◌==◌,
  Bool-cases, arith, eq_iff,
}
use mathlib.Core.List.{Memᴰ}
use codeflare_operator.Startup.Effect.{Step, next, exited, panicked}
use codeflare_operator.Startup.Wait.{
  Crd, Signal, Verdict, failed, added, modified, other, cancelled, received, waits, leaves, acts,
  is_established, look_at, round, or_on, wait_in,
}

abbrev pub established : String × String
established = ("Established", "True")

-- The CRD of the API, established.
abbrev pub IsReady : String → Crd → Type 0
IsReady name crd = (crd.name ≡ name) × Memᴰ established crd.conditions

module _ {F : Type 0} (name : String) where
  -- The signals that tell of the API.
  pub data Tells : Signal F → Type 0 where
    by_addition : {crd : Crd} → IsReady name crd → Tells (received (added (some crd)))
    by_change : {crd : Crd} → IsReady name crd → Tells (received (modified (some crd)))

  -- The signals that leave the loop waiting.
  pub data Idles : Signal F → Type 0 where
    other_addition : {crd : Crd} → ¬ IsReady name crd → Idles (received (added (some crd)))
    other_change : {crd : Crd} → ¬ IsReady name crd → Idles (received (modified (some crd)))
    other_event : Idles (received other)

  -- A signal that tells of the API, after signals that leave the loop waiting.
  pub data Appears : List (Signal F) → Type 0 where
    now : {s : Signal F} {signals : List (Signal F)} → Tells s → Appears (s ∷ signals)
    later :
        {s : Signal F} {signals : List (Signal F)}
        → Idles s
        → Appears signals
        → Appears (s ∷ signals)

is_established_iff :
    (conditions : List (String × String))
    → (is_established conditions ≡ true) ↔ Memᴰ established conditions
unfolding is_established
is_established_iff conditions = (mem_of conditions, of_mem conditions)
  where
    matches_iff :
        (kind status : String)
        → (kind == "Established" && status == "True") ≡ true
        → established ≡ (kind, status)
    matches_iff kind status h = grind (arith, eq_iff kind "Established", eq_iff status "True")

    mem_of : (cs : List (String × String)) → is_established cs ≡ true → Memᴰ established cs
    mem_of [] h = absurd (cc h)
    mem_of ((kind, status) ∷ cs) h = elim (Bool-cases (kind == "Established" && status == "True")) [
      | inl e ↦ Memᴰ.head (matches_iff kind status e)
      | inr e ↦ Memᴰ.tail (mem_of cs (grind (arith, h, e)))
    ]

    of_mem : (cs : List (String × String)) → Memᴰ established cs → is_established cs ≡ true
    of_mem [] m = elim m [ ]
    of_mem ((kind, status) ∷ cs) (Memᴰ.head e) =
        rw (sym (ap (λ x. x.0) e), sym (ap (λ x. x.1) e)) refl
    of_mem ((kind, status) ∷ cs) (Memᴰ.tail m) = grind (arith, of_mem cs m)

IsReady-iff :
    (name : String) (crd : Crd)
    → ((crd.name == name && is_established crd.conditions) ≡ true) ↔ IsReady name crd
IsReady-iff name crd = (
  λ h. (grind (arith, eq_iff crd.name name), (is_established_iff crd.conditions).0 (grind arith)),
  λ t. grind (arith, eq_iff crd.name name, (is_established_iff crd.conditions).1 t.1, t.0),
)

or_on-acts :
    {F : Type 0} (r rest : Step F Verdict)
    → or_on r rest ≡ next acts
    → (r ≡ next acts) ⊎ ((r ≡ next waits) × (rest ≡ next acts))
or_on-acts (next waits) rest h = inr (refl, h)
or_on-acts (next leaves) rest h = absurd (cc h)
or_on-acts (next acts) rest h = inl refl
or_on-acts (exited e text) rest h = absurd (cc h)
or_on-acts panicked rest h = absurd (cc h)

module _ {F : Type 0} (name : String) where
  Ready-cases :
      (crd : Crd)
      → ((look_at {F = F} name (some crd) ≡ next acts) × IsReady name crd)
        ⊎ ((look_at {F = F} name (some crd) ≡ next waits) × ¬ IsReady name crd)
  unfolding look_at
  Ready-cases crd = elim (Bool-cases (crd.name == name && is_established crd.conditions)) [
    | inl e ↦ inl (rw e refl, (IsReady-iff name crd).0 e)
    | inr e ↦ inr (rw e refl, λ r. cc (e, (IsReady-iff name crd).1 r))
  ]

  pub round-acts_iff : (s : Signal F) → (round name s ≡ next acts) ↔ Tells name s
  unfolding round
  round-acts_iff s = (tells s, acts_of s)
    where
      tells : (s : Signal F) → round name s ≡ next acts → Tells name s
      tells cancelled h = absurd (cc h)
      tells (received (failed e)) h = absurd (cc h)
      tells (received (added none)) h = absurd (cc h)
      tells (received (added (some crd))) h = elim (Ready-cases crd) [
        | inl t ↦ by_addition t.1
        | inr t ↦ absurd (cc (h, t.0))
      ]
      tells (received (modified none)) h = absurd (cc h)
      tells (received (modified (some crd))) h = elim (Ready-cases crd) [
        | inl t ↦ by_change t.1
        | inr t ↦ absurd (cc (h, t.0))
      ]
      tells (received other) h = absurd (cc h)

      acts_of : (s : Signal F) → Tells name s → round name s ≡ next acts
      acts_of _ (by_addition {crd} r) = elim (Ready-cases crd) [
        | inl t ↦ t.0
        | inr t ↦ absurd (t.1 r)
      ]
      acts_of _ (by_change {crd} r) = elim (Ready-cases crd) [
        | inl t ↦ t.0
        | inr t ↦ absurd (t.1 r)
      ]

  round-waits_iff : (s : Signal F) → (round name s ≡ next waits) ↔ Idles name s
  unfolding round
  round-waits_iff s = (idles s, waits_of s)
    where
      idles : (s : Signal F) → round name s ≡ next waits → Idles name s
      idles cancelled h = absurd (cc h)
      idles (received (failed e)) h = absurd (cc h)
      idles (received (added none)) h = absurd (cc h)
      idles (received (added (some crd))) h = elim (Ready-cases crd) [
        | inl t ↦ absurd (cc (h, t.0))
        | inr t ↦ other_addition t.1
      ]
      idles (received (modified none)) h = absurd (cc h)
      idles (received (modified (some crd))) h = elim (Ready-cases crd) [
        | inl t ↦ absurd (cc (h, t.0))
        | inr t ↦ other_change t.1
      ]
      idles (received other) h = other_event

      waits_of : (s : Signal F) → Idles name s → round name s ≡ next waits
      waits_of _ (other_addition {crd} r) = elim (Ready-cases crd) [
        | inl t ↦ absurd (r t.1)
        | inr t ↦ t.0
      ]
      waits_of _ (other_change {crd} r) = elim (Ready-cases crd) [
        | inl t ↦ absurd (r t.1)
        | inr t ↦ t.0
      ]
      waits_of _ other_event = refl

  appears : (signals : List (Signal F)) → wait_in name signals ≡ next acts → Appears name signals
  unfolding wait_in
  appears [] h = absurd (cc h)
  appears (s ∷ signals) h = elim (or_on-acts (round name s) (wait_in name signals) h) [
    | inl e ↦ now ((round-acts_iff s).0 e)
    | inr t ↦ later ((round-waits_iff s).0 t.0) (appears signals t.1)
  ]

  acts_once_appeared :
      (signals : List (Signal F)) → Appears name signals → wait_in name signals ≡ next acts
  unfolding wait_in
  acts_once_appeared _ (now {s} {signals} t) = rw ((round-acts_iff s).1 t) refl
  acts_once_appeared _ (later {s} {signals} i rest) =
      rw ((round-waits_iff s).1 i) (acts_once_appeared signals rest)

  -- The loop of `waitForAPI` invokes its action exactly if, after signals that are events of another
  -- type or about a CRD that is not the named API or not established, there comes an addition or a
  -- change of the CRD of that name with the condition `Established` at `True`. In particular a
  -- cancellation, an error of the watch or an object that is no CRD before that event prevents it.
  pub wait_in-acts_iff :
      (signals : List (Signal F)) → (wait_in name signals ≡ next acts) ↔ Appears name signals
  wait_in-acts_iff signals = (appears signals, acts_once_appeared signals)
