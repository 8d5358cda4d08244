-- ===== src/Channel/Listens.antt =====
-- The loops of the handshakes on a channel of messages: a round may send something, hears one
-- message, and goes on or ends by it.
use serial_testkit.Prelude.{
  ℕ, ◌-◌, ◌≤◌, ◌≡◌, refl, ap, ◌∙◌, Option, some, List, [], ◌∷◌, All, arith,
}
use serial_testkit.Prelude.Bytes.{Bytes}
use serial_testkit.Exec.{Result, ok, Exec, attempt, is_decode_error, lift, ◌>>=◌}
use serial_testkit.Exec.Ends.{Progress}
use serial_testkit.Exec.Does.{Does, Does-mono, run-bind}
use serial_testkit.Host.{Host}
use serial_testkit.Host.Laws.{IsLine, HasClock}
use serial_testkit.Encoding.{Decoded, decode_message}
use serial_testkit.Timed.{Round, again, done, within}
use serial_testkit.Timed.Finds.{RoundOn, FoundOr, within-Finds}
use serial_testkit.Channel.{CarriesThen}
use serial_testkit.Channel.Hears.{hears-Does}

-- What a round hears when `ms` and then `m` are to come, and what is to come behind it.
abbrev Heard :
    {W : Type 0}
    → Host W
    → (W → Bytes)
    → Bytes
    → Decoded
    → List Decoded
    → Option Decoded
    → W
    → Type 0
Heard H pending rest m [] o w = (o ≡ some m) × (pending w ≡ rest)
Heard H pending rest m (n ∷ ms) o w = (o ≡ some n) × CarriesThen H ms m (pending w) rest

module _ {W : Type 0} (H : Host W) {pending written : W → Bytes}
    (L : IsLine H pending written) where
  hears-Heard :
      (ms : List Decoded) (m : Decoded) (rest : Bytes) (w : W)
      → CarriesThen H ms m (pending w) rest
      → Does
          (attempt is_decode_error (decode_message H))
          w
          λ o w'. Heard H pending rest m ms o w' × (written w' ≡ written w)
  hears-Heard [] m rest w (middle, e, s) =
      Does-mono (hears-Does H L m rest w (rw e s)) λ o w' (f, l, k). ((f, l), k)
  hears-Heard (n ∷ ms) m rest w (middle, (next, s, c), t) =
      Does-mono (hears-Does H L n next w s) λ o w' (f, l, k). ((f, (middle, rw l c, t)), k)

  module _ {clock : W → ℕ} (C : HasClock H clock) {S A : Type 0} (sends : S → Exec W S)
      (takes : S → Option Decoded → Result (Round S A))
      (b : (s : S)
        → Progress clock (
            sends s >>= λ s'.
            attempt is_decode_error (decode_message H) >>= λ got. lift (takes s' got)))
      (v : W) (I K : S → W → Type 0)
      (send : (s : S) (w : W)
        → clock v ≤ clock w
        → I s w
        → Does (sends s) w λ s' w'. (pending w' ≡ pending w) × K s' w')
      (kept : (s : S) (w w' : W) → K s w → written w' ≡ written w → K s w')
      (next : (s : S) (w : W) → K s w → I s w)
      (kept' : (s : S) (w w' : W) → I s w → written w' ≡ written w → I s w')
      (IsStray : Decoded → Type 0)
      (ignored : (s : S) (m : Decoded) → IsStray m → takes s (some m) ≡ ok (again s)) (m : Decoded)
      (a : A) (rest : Bytes) (ends : (s : S) → takes s (some m) ≡ ok (done a)) where
    abbrev Coming : List Decoded → S → W → Type 0
    Coming ms s w =
        All IsStray ms × CarriesThen H ms m (pending w) rest × (clock v ≤ clock w) × I s w

    abbrev Listened : A → W → Type 0
    Listened x w = (x ≡ a) × (pending w ≡ rest) × (clock v ≤ clock w) × (s : S) × K s w

    taken :
        (ms : List Decoded) (s : S) (o : Option Decoded) (w w' : W)
        → All IsStray ms
        → clock v ≤ clock w'
        → K s w
        → Heard H pending rest m ms o w'
        → written w' ≡ written w
        → (r : Round S A) × (takes s o ≡ ok r) × RoundOn Coming Listened ms r w'
    taken [] s o w w' h later k (f, l) e =
        (done a, rw f (ends s), (refl, l, later, s, kept s w w' k e))
    taken (n ∷ ms) s o w w' (h, hs) later k (f, l) e =
        (again s, rw f (ignored s n h), (hs, l, later, next s w' (kept s w w' k e)))

    abbrev round : S → Exec W (Round S A)
    round s =
        sends s >>= λ s'. attempt is_decode_error (decode_message H) >>= λ got. lift (takes s' got)

    round-runs :
        (s s' : S) (o : Option Decoded) (w w₁ w₂ : W)
        → sends s w ≡ (ok s', w₁)
        → attempt is_decode_error (decode_message H) w₁ ≡ (ok o, w₂)
        → round s w ≡ (takes s' o, w₂)
    round-runs s s' o w w₁ w₂ e f =
        run-bind (sends s) _ w w₁ s' e
        ∙ run-bind (attempt is_decode_error (decode_message H)) (λ got. lift (takes s' got)) w₁ w₂ o
            f

    round-Heard :
        (ms : List Decoded) (s s' : S) (o : Option Decoded) (w w₁ w₂ : W)
        → Coming ms s w
        → round s w ≡ (takes s' o, w₂)
        → K s' w₁
        → Heard H pending rest m ms o w₂
        → written w₂ ≡ written w₁
        → Does (round s) w (RoundOn Coming Listened ms)
    round-Heard ms s s' o w w₁ w₂ (hs, _, later, _) runs k h e =
        let q : clock v ≤ clock w₂ =
          omega (arith, later, (b s).ends.later w, ap (λ p. clock p.1) runs) in
        let (r, f, g) = taken ms s' o w₁ w₂ hs q k h e in
        record { value = r; next = w₂; runs = runs ∙ ap (λ x. (x, w₂)) f; holds = g }

    round-Does :
        (ms : List Decoded) (s : S) (w : W)
        → Coming ms s w
        → Does (round s) w (RoundOn Coming Listened ms)
    round-Does ms s w (hs, (middle, c, t), later, i) =
        let d = send s w later i in
        let (left, k) = d.holds in
        let e = hears-Heard ms m rest d.next (middle, rw left c, t) in
        round-Heard ms s d.value e.value w d.next e.next (hs, (middle, c, t), later, i)
          (round-runs s d.value e.value w d.next e.next d.runs e.runs) k e.holds.0 e.holds.1

    -- Where the messages `ms` are to come, which the loop ignores, and then the message `m`, which
    -- ends it, the loop ends by `m`, unless its time is over before.
    pub listens :
        (timeout : ℕ) (ms : List Decoded) (s : S) (w : W)
        → clock v ≤ clock w
        → All IsStray ms
        → CarriesThen H ms m (pending w) rest
        → I s w
        → Does (within H timeout round s) w (FoundOr Listened (λ w'. timeout ≤ clock w' - clock w))
    listens timeout ms s w later hs c i =
        within-Finds H C round b Coming Listened
          (λ ms' s' w' (hs', (middle, c', t), later', i'). (
            hs',
            (middle, rw (L.pending-monotonic w') c', t),
            omega (arith, later', C.now_from w', C.now_until w'),
            kept' s' w' (H.monotonic w').1 i' (L.written-monotonic w'),
          ))
          round-Does timeout ms s w (hs, c, later, i)
