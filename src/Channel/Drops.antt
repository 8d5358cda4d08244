-- ===== src/Channel/Drops.antt =====
-- What the handshakes' code takes from a line, as a front that it drops, and where in it a loop of
-- theirs has found what it returns.
use serial_testkit.Prelude.{
  ℕ, zero, suc, ◌+◌, ◌-◌, ◌≡◌, refl, ap, ◌∙◌, Option, some, inl, inr, ltb, drop, drop-drop,
}
use serial_testkit.Prelude.Bytes.{Bytes}
use serial_testkit.Exec.{ok, Exec, pure, lift, call}
use serial_testkit.Exec.Moves.{
  Moves, IsPreorder, Moves-pure, Moves-lift, Moves-bind, Moves-call, Moves-if,
}
use serial_testkit.Exec.Steps.{bind-run, if-run}
use serial_testkit.Host.{Host}
use serial_testkit.Host.Laws.{IsLine, HasArrivals}
use serial_testkit.Message.{uint32_to_bytes, encode}
use serial_testkit.Message.Bounds.{decode-Takes}
use serial_testkit.Protocol.{MsgType}
use serial_testkit.Encoding.{parse_message, decode_message, encode_control}
use serial_testkit.SerialIo.{drain_input}
use serial_testkit.Timed.{Round, again, done, poll, within, retransmit}

-- What is to come at `w'` is what was to come at `w`, without some bytes at its front.
abbrev pub Drops : {W : Type 0} → (W → Bytes) → W → W → Type 0
Drops pending w w' = (n : ℕ) × (pending w' ≡ drop n (pending w))

pub Drops-IsPreorder : {W : Type 0} (pending : W → Bytes) → IsPreorder (Drops pending)
Drops-IsPreorder pending = record {
  same = λ w. (0, refl);
  follows = λ u v w (n, e) (k, f). (n + k, f ∙ ap (drop k) e ∙ drop-drop k n (pending u));
}

module _ {W : Type 0} (H : Host W) {pending written : W → Bytes}
    (L : IsLine H pending written) where
  write-Drops : (bs : Bytes) → Moves (Drops pending) (H.write bs)
  write-Drops bs = record {
    moves = λ w. let d = L.writes bs w in (0, ap (λ r. pending r.1) d.runs ∙ d.holds.0);
  }

  monotonic-Drops : Moves (Drops pending) (call H.monotonic)
  monotonic-Drops = Moves-call H.monotonic λ w. (0, L.pending-monotonic w)

  pub decode_message-Drops : Moves (Drops pending) (decode_message H)
  unfolding decode_message
  decode_message-Drops =
      Moves-bind (Drops-IsPreorder pending) _ _
        (record { moves = λ w. let (n, _, e) = (decode-Takes H L.stream).takes w in (n, e) })
        λ (payload, good). Moves-lift (Drops-IsPreorder pending) (parse_message payload good)

  pub retransmit-Drops :
      (msg : Bytes) (interval last : ℕ) → Moves (Drops pending) (retransmit H msg interval last)
  unfolding retransmit
  retransmit-Drops msg interval last =
      let o = Drops-IsPreorder pending in
      Moves-bind o (call H.monotonic) _ monotonic-Drops λ now.
        Moves-if (ltb interval (now - last)) _ _
          (Moves-bind o (H.write msg) _ (write-Drops msg) λ _. monotonic-Drops) (Moves-pure o last)

  pub encode_control-Drops :
      (t : MsgType) (conn_id : Bytes) → Moves (Drops pending) (encode_control H t conn_id)
  unfolding encode_control encode
  encode_control-Drops t conn_id =
      let o = Drops-IsPreorder pending in
      Moves-bind o (lift (uint32_to_bytes _)) _ (Moves-lift o _)
        λ len. Moves-bind o (lift (uint32_to_bytes _)) _ (Moves-lift o _) λ crc. Moves-pure o _

  pub drain_input-Drops : HasArrivals H pending written → Moves (Drops pending) (drain_input H)
  unfolding drain_input
  drain_input-Drops A =
      let o = Drops-IsPreorder pending in
      let counted : Moves (Drops pending) H.in_waiting = record {
        moves = λ w. let d = A.counted_here w in (0, ap (λ r. pending r.1) d.runs ∙ d.holds.1);
      } in
      Moves-bind o H.in_waiting _ counted λ count.
        Moves-if (ltb 0 count) _ _
          (Moves-bind o (H.read count) _
            (record {
              moves = λ w. (
                count,
                ap (λ r. pending r.1) (L.stream.reads count w) ∙ L.stream.pending-after count w,
              );
            })
            λ _. Moves-pure o count)
          (Moves-pure o count)

  -- A loop that returns a result has got it from a round of its own, and has returned at once.
  module _ {S A : Type 0} (body : S → Exec W (Round S A))
      (drops : (s : S) → Moves (Drops pending) (body s)) where
    -- The round that has ended the loop, from the world that it began in.
    abbrev pub FoundBy : W → A → W → Type 0
    FoundBy w a w' = (s : S) × (v : W) × Drops pending w v × (body s v ≡ (ok (done a), w'))

    earlier : (u v w' : W) (a : A) → Drops pending u v → FoundBy v a w' → FoundBy u a w'
    earlier u v w' a d (s, v', d', e) = (s, v', (Drops-IsPreorder pending).follows u v v' d d', e)

    poll-FoundBy :
        (fuel start timeout : ℕ) (s : S) (w w' : W) (a : A)
        → poll H fuel start timeout body s w ≡ (ok (some a), w')
        → FoundBy w a w'
    unfolding poll
    poll-FoundBy zero start timeout s w w' a e = absurd (cc (ap (λ r. r.0) e))
    poll-FoundBy (suc fuel) start timeout s w w' a e =
        let v = (H.monotonic w).1 in
        let seen : Drops pending w v = (0, L.pending-monotonic w) in
        elim (if-run (ltb ((H.monotonic w).0 - start) timeout) _ _ v w' (some a) e) [
          | inl (_, e₁) ↦
              let (r, e₂, e₃) = bind-run (body s) _ v w' (some a) e₁ in
              earlier w v w' a seen
                (ended (λ s' u k. poll-FoundBy fuel start timeout s' u w' a k) r v s e₂ e₃)
          | inr (_, e₁) ↦ absurd (cc (ap (λ r. r.0) e₁))
        ]
      where
        ended :
            ((s' : S) (u : W)
              → poll H fuel start timeout body s' u ≡ (ok (some a), w')
              → FoundBy u a w')
            → (r : Round S A) (v : W) (s : S) → body s v ≡ (ok r, (body s v).1)
            → (let next : Exec W (Option A) = elim r [
              | again s' ↦ poll H fuel start timeout body s'
              | done a ↦ pure (some a)
            ] in
                next (body s v).1 ≡ (ok (some a), w'))
            → FoundBy v a w'
        ended onward (again s') v s e₂ e₃ =
            earlier v (body s v).1 w' a ((drops s).moves v) (onward s' (body s v).1 e₃)
        ended onward (done b) v s e₂ e₃ =
            (s, v, (0, refl), cc (e₂, ap (λ r. r.0) e₃, ap (λ r. r.1) e₃))

    pub within-FoundBy :
        (timeout : ℕ) (s : S) (w w' : W) (a : A)
        → within H timeout body s w ≡ (ok (some a), w')
        → FoundBy w a w'
    unfolding within
    within-FoundBy timeout s w w' a e =
        let v = (H.monotonic w).1 in
        earlier w v w' a (0, L.pending-monotonic w)
          (poll-FoundBy (timeout + 1) (H.monotonic w).0 timeout s v w' a e)
