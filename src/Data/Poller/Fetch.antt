-- ===== src/Data/Poller/Fetch.antt =====
-- services/data/src/realtime-live/poller.ts: what `fetchWithRetries` returns.
use better_mta.Prelude.{
  ◌≡◌, ◌↔◌, refl, ap, sym, ◌∙◌, ℕ, zero, suc, ◌+◌, ◌≤◌, true, false, ◌⊎◌, List, [], ◌∷◌, ◌++◌,
  Bool-cases, inl, inr, arith, length, length-append, ltb,
}
use mathlib.Core.List.{append_assoc, append-nil}
use mathlib.Core.Path.{subst}
use better_mta.Prelude.Text.{Text}
use better_mta.Data.Poller.{
  Bytes, FetchResult, fetched, fetch_failed, read_chunks, Response, timed_out, broken, answered,
  fetch_once, Network, after_attempt, fetch_from, fetch_with_retries,
}

abbrev pub concat : List Bytes → Bytes
concat [] = []
concat (chunk ∷ chunks) = chunk ++ concat chunks

fetched-injective : {a b : Bytes} → fetched a ≡ fetched b → a ≡ b
fetched-injective h = cc

-- The chunks make up these bytes, and they are not too many.
abbrev pub IsBody : ℕ → List Bytes → Bytes → Type 0
IsBody max chunks bytes = (bytes ≡ concat chunks) × (length bytes ≤ max)

read_chunks_iff :
    (max : ℕ) (chunks : List Bytes) (out bytes : Bytes)
    → length out ≤ max
    → (read_chunks max chunks out ≡ fetched bytes)
      ↔ ((bytes ≡ out ++ concat chunks) × (length bytes ≤ max))
unfolding read_chunks
read_chunks_iff max [] out bytes small = (
  λ h.
      let same = fetched-injective h in
      (sym same ∙ sym (append-nil out), subst (λ b. length b ≤ max) same small),
  λ (e, k). ap fetched (sym (e ∙ append-nil out)),
)
read_chunks_iff max (chunk ∷ chunks) out bytes small =
    elim (Bool-cases (ltb max (length out + length chunk))) [
      | inr fits ↦
          let rest =
            read_chunks_iff max chunks (out ++ chunk) bytes
              (ground (arith, length-append out chunk)) in
          (
            λ h.
                let (e, k) = rest.0 (rw fits at h) in
                (e ∙ append_assoc out chunk (concat chunks), k),
            λ (e, k). rw fits (rest.1 (e ∙ sym (append_assoc out chunk (concat chunks)), k)),
          )
      | inl large ↦ (
        λ h. cc (rw large at h),
        λ (e, k). ground (
          arith,
          ap length e,
          length-append out (chunk ++ concat chunks),
          length-append chunk (concat chunks),
        ),
      )
    ]

-- The response has these bytes, and they are not too many.
abbrev pub Brings : ℕ → Response → Bytes → Type 0
Brings max (answered true status chunks) bytes = IsBody max chunks bytes
Brings max response bytes = ⊥

fetch_once-Brings :
    (max : ℕ) (response : Response) (bytes : Bytes)
    → (fetch_once max response ≡ fetched bytes) ↔ Brings max response bytes
unfolding fetch_once
fetch_once-Brings max timed_out bytes = (λ h. cc h, λ h. absurd h)
fetch_once-Brings max (broken message) bytes = (λ h. cc h, λ h. absurd h)
fetch_once-Brings max (answered false status chunks) bytes = (λ h. cc h, λ h. absurd h)
fetch_once-Brings max (answered true status chunks) bytes =
    read_chunks_iff max chunks [] bytes (omega arith)

-- From an attempt on, with so many left behind it: the first that does not fail brings these bytes, and nothing stops or wakes the poller before.
pub data FirstSuccess (max : ℕ) (network : Network) : ℕ → ℕ → Bytes → Type 0 where
  here :
      {attempt left : ℕ} {bytes : Bytes}
      → network.is_stopped attempt ≡ false
      → Brings max (network.respond attempt) bytes
      → FirstSuccess max network attempt left bytes
  later :
      {attempt left : ℕ} {bytes : Bytes} (message : Text)
      → network.is_stopped attempt ≡ false
      → fetch_once max (network.respond attempt) ≡ fetch_failed message
      → network.wakes attempt ≡ false
      → FirstSuccess max network (suc attempt) left bytes
      → FirstSuccess max network attempt (suc left) bytes

fetched-cases :
    (r : FetchResult) → ((b : Bytes) × (r ≡ fetched b)) ⊎ ((m : Text) × (r ≡ fetch_failed m))
fetched-cases (fetched b) = inl (b, refl)
fetched-cases (fetch_failed m) = inr (m, refl)

module _ (max : ℕ) (network : Network) where
  fetch_from_of_here :
      (attempt left : ℕ) (bytes : Bytes)
      → network.is_stopped attempt ≡ false
      → Brings max (network.respond attempt) bytes
      → fetch_from max network attempt left ≡ fetched bytes
  unfolding fetch_from after_attempt
  fetch_from_of_here attempt zero bytes runs brings =
      rw (runs, (fetch_once-Brings max (network.respond attempt) bytes).1 brings) refl
  fetch_from_of_here attempt (suc left) bytes runs brings =
      rw (runs, (fetch_once-Brings max (network.respond attempt) bytes).1 brings) refl

  fetch_from_of_success :
      {attempt left : ℕ} {bytes : Bytes}
      → FirstSuccess max network attempt left bytes
      → fetch_from max network attempt left ≡ fetched bytes
  unfolding fetch_from after_attempt
  fetch_from_of_success (here {attempt} {left} {bytes} runs brings) =
      fetch_from_of_here attempt left bytes runs brings
  fetch_from_of_success (later message runs fails sleeps rest) =
      rw (runs, fails, sleeps) (fetch_from_of_success rest)

  FirstSuccess-fetch_from :
      (attempt left : ℕ) (bytes : Bytes)
      → fetch_from max network attempt left ≡ fetched bytes
      → FirstSuccess max network attempt left bytes
  unfolding fetch_from after_attempt
  FirstSuccess-fetch_from attempt zero bytes h = elim (Bool-cases (network.is_stopped attempt)) [
    | inl stops ↦ cc (rw stops at h)
    | inr runs ↦ elim (fetched-cases (fetch_once max (network.respond attempt))) [
      | inl (b, e) ↦
          here runs
            ((fetch_once-Brings max (network.respond attempt) bytes).0 (e ∙ rw (runs, e) at h))
      | inr (m, e) ↦ cc (rw (runs, e) at h)
    ]
  ]
  FirstSuccess-fetch_from attempt (suc left) bytes h =
      elim (Bool-cases (network.is_stopped attempt)) [
        | inl stops ↦ cc (rw stops at h)
        | inr runs ↦ elim (fetched-cases (fetch_once max (network.respond attempt))) [
          | inl (b, e) ↦
              here runs
                ((fetch_once-Brings max (network.respond attempt) bytes).0 (e ∙ rw (runs, e) at h))
          | inr (m, e) ↦ elim (Bool-cases (network.wakes attempt)) [
            | inl wakes ↦ cc (rw (runs, e, wakes) at h)
            | inr sleeps ↦
                later m runs e sleeps
                  (FirstSuccess-fetch_from (suc attempt) left bytes (rw (runs, e, sleeps) at h))
          ]
        ]
      ]

-- A fetch brings bytes exactly if, among the first attempt and its retries, the first that does not fail
-- answers with an ok status and chunks that make up these bytes, at most as many as are allowed, and the
-- poller is neither stopped before it nor woken from a sleep.
pub fetch_with_retries-FirstSuccess :
    (max retries : ℕ) (network : Network) (bytes : Bytes)
    → (fetch_with_retries max retries network ≡ fetched bytes)
      ↔ FirstSuccess max network 0 retries bytes
fetch_with_retries-FirstSuccess max retries network bytes =
    (FirstSuccess-fetch_from max network 0 retries bytes, fetch_from_of_success max network)
