-- ===== src/Net/Ingress/Slots.antt =====
-- Requests that overlap: each is admitted after its check, reads its body over many turns of the
-- event loop, and releases what it holds. Any interleaving is a path of the relation below.
use upstat.Common.{
  ℕ, ◌+◌, ◌≤◌, ◌≡◌, ap, Bool, false, Option, none, some, List, [], ◌∷◌, ◌++◌, arith, if◌then◌else◌,
  nat_eq, string_eq, total, total-append, Failure, ok, err,
}
use upstat.Net.Ingress.{Ingress, admit, release, small_body_bytes}

-- The service and the requests whose bodies are being read, with what each holds.
pub record Server : Type 0 where
  pub ingress : Ingress
  pub open_requests : List Bool

pub data Step (max_concurrent max_bytes : ℕ) (s : Server) : Server → Type 0 where
  arrive :
      (declared : Option ℕ) (held : Bool) {i : Ingress}
      → admit max_concurrent max_bytes declared s.ingress ≡ (ok held, i)
      → Step max_concurrent max_bytes s
          (record { ingress = i; open_requests = held ∷ s.open_requests })
  turn_away :
      (declared : Option ℕ) {e : Failure} {i : Ingress}
      → admit max_concurrent max_bytes declared s.ingress ≡ (err e, i)
      → Step max_concurrent max_bytes s (record s { ingress = i })
  leave :
      (before after : List Bool) (held : Bool)
      → s.open_requests ≡ before ++ held ∷ after
      → Step max_concurrent max_bytes s
          (record { ingress = release held s.ingress; open_requests = before ++ after })

pub data Reach (max_concurrent max_bytes : ℕ) (s : Server) : Server → Type 0 where
  here : Reach max_concurrent max_bytes s s
  next :
      {t u : Server}
      → Reach max_concurrent max_bytes s t
      → Step max_concurrent max_bytes t u
      → Reach max_concurrent max_bytes s u

abbrev pub held_count : List Bool → ℕ
held_count = total (λ held. if held then 1 else 0)

-- The counter is the number of slots held, and within the cap.
pub record IsCounted (max_concurrent : ℕ) (s : Server) : Type 0 where
  pub exact : s.ingress.inflight ≡ held_count s.open_requests
  pub capped : s.ingress.inflight ≤ max_concurrent

held_count-remove :
    (before after : List Bool) (held : Bool)
    → held_count (before ++ held ∷ after) ≡ held_count (before ++ after) + held_count (held ∷ [])
held_count-remove before after held = omega (
  arith,
  total-append (λ h. if h then 1 else 0) before (held ∷ after),
  total-append (λ h. if h then 1 else 0) before after,
)

Step-IsCounted : {m b : ℕ} {s t : Server} → Step m b s t → IsCounted m s → IsCounted m t
unfolding admit
Step-IsCounted (arrive none held e) c = ground arith
Step-IsCounted (arrive (some d) held e) c = ground arith
Step-IsCounted (turn_away none e) c = ground arith
Step-IsCounted (turn_away (some d) e) c = ground arith
Step-IsCounted {s} (leave before after held e) c =
    ground (arith, ap held_count e, held_count-remove before after held)

-- At every moment of every interleaving of requests the counter is the number of slots held by
-- the bodies being read, and at most the configured cap.
pub Reach-IsCounted : {m b : ℕ} {s t : Server} → IsCounted m s → Reach m b s t → IsCounted m t
Reach-IsCounted c here = c
Reach-IsCounted c (next r step) = Step-IsCounted step (Reach-IsCounted c r)

-- A body that declares at most 64 KiB, and no more than its limit, is admitted however many large
-- bodies are being read, and holds no slot.
pub admit_small :
    (max_concurrent max_bytes declared : ℕ) (s : Ingress)
    → declared ≤ small_body_bytes
    → declared ≤ max_bytes
    → admit max_concurrent max_bytes (some declared) s ≡ (ok false, s)
unfolding admit
admit_small max_concurrent max_bytes declared s small fits = ground arith
