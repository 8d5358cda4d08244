-- ===== src/Channel/Receive.antt =====
-- common/encoding.py on a channel of messages: `decode_message` takes the next one.
use serial_testkit.Prelude.{
  ℕ, zero, suc, ◌+◌, ◌≤◌, ◌≡◌, refl, sym, ap, ◌∙◌, true, false, ◌||◌, none, some, [], ◌++◌, ltb,
  leb, ◌==◌, length, length-append, drop, arith,
}
use serial_testkit.Prelude.Bytes.{
  Bytes, to_bytes, from_bytes, bytes_eq, from_bytes-to_bytes, length-to_bytes,
}
use serial_testkit.Exec.{ok, err, transport_error}
use serial_testkit.Exec.Does.{Does}
use serial_testkit.Exec.Moves.{Moves, IsPreorder, Moves-pure, Moves-stuck, Moves-bind, Moves-if}
use serial_testkit.Host.{Host}
use serial_testkit.Host.Laws.{IsLine}
use serial_testkit.Message.{
  uint32_size, sync_magic_bytes, max_message_length, max_resync_bytes, resync, read_frame, decode,
}
use serial_testkit.Message.Frames.{StartsAt-length}
use serial_testkit.Message.Resync.{resync_finds}
use serial_testkit.Message.RoundTrip.{four, read_frame_parts, decode_found}
use serial_testkit.Encoding.{Decoded, parse_message, decode_message}
use serial_testkit.Encoding.RoundTrip.{parse_message-payload}
use serial_testkit.Encoding.Soundness.{payload_of}
use serial_testkit.Channel.{Stands}

module _ {W : Type 0} (H : Host W) {pending written : W → Bytes}
    (L : IsLine H pending written) where
  abbrev SameWritten : W → W → Type 0
  SameWritten w w' = written w' ≡ written w

  SameWritten-IsPreorder : IsPreorder SameWritten
  SameWritten-IsPreorder = record { same = λ w. refl; follows = λ u v w h k. k ∙ h }

  read-SameWritten : (n : ℕ) → Moves SameWritten (H.read n)
  read-SameWritten n = record { moves = λ w. rw (L.stream.reads n w) (L.written-after n w) }

  resync-SameWritten :
      (fuel scanned : ℕ) (window : Bytes) → Moves SameWritten (resync H fuel scanned window)
  unfolding resync
  resync-SameWritten zero scanned window = Moves-stuck SameWritten-IsPreorder
  resync-SameWritten (suc fuel) scanned window =
      Moves-if (bytes_eq window sync_magic_bytes) _ _ (Moves-pure SameWritten-IsPreorder true) (
        Moves-if (leb max_resync_bytes scanned) _ _ (Moves-pure SameWritten-IsPreorder false) (
          Moves-bind SameWritten-IsPreorder (H.read 1) _ (read-SameWritten 1) λ next_byte.
            Moves-if (ltb (length next_byte) 1) _ _ (Moves-pure SameWritten-IsPreorder false)
              (resync-SameWritten fuel (scanned + 1) (drop 1 window ++ next_byte))))

  read_frame-SameWritten : Moves SameWritten (read_frame H)
  unfolding read_frame
  read_frame-SameWritten =
      Moves-bind SameWritten-IsPreorder (H.read uint32_size) _ (read-SameWritten uint32_size)
        λ length_bytes.
          let len = from_bytes length_bytes in
          Moves-if (ltb (length length_bytes) uint32_size) _ _
            (Moves-pure SameWritten-IsPreorder (none, false))
            (Moves-if (ltb max_message_length len) _ _
              (Moves-pure SameWritten-IsPreorder (none, false))
              (Moves-bind SameWritten-IsPreorder (H.read len) _ (read-SameWritten len) λ payload.
                Moves-bind SameWritten-IsPreorder (H.read uint32_size) _
                  (read-SameWritten uint32_size)
                  λ crc_bytes.
                    Moves-if (ltb (length payload) len || ltb (length crc_bytes) uint32_size) _ _
                      (Moves-pure SameWritten-IsPreorder (none, false))
                      (Moves-pure SameWritten-IsPreorder
                        (some payload, from_bytes crc_bytes == H.crc32 payload))))

  decode-SameWritten : Moves SameWritten (decode H)
  unfolding decode
  decode-SameWritten =
      Moves-bind SameWritten-IsPreorder (H.read uint32_size) _ (read-SameWritten uint32_size)
        λ window.
          Moves-if (ltb (length window) uint32_size) _ _
            (Moves-pure SameWritten-IsPreorder (none, false))
            (Moves-bind SameWritten-IsPreorder (resync H (max_resync_bytes + 1) 0 window) _
              (resync-SameWritten (max_resync_bytes + 1) 0 window)
              λ found.
                Moves-if found _ _ read_frame-SameWritten
                  (Moves-pure SameWritten-IsPreorder (none, false)))

  decode-Stands :
      (m : Decoded) (rest : Bytes) (w : W)
      → Stands H m (pending w) rest
      → (w' : W) × (decode H w ≡ (ok (some (payload_of m), m.crc_ok), w')) × (pending w' ≡ rest)
  decode-Stands m rest w (k, crc_bytes, hk, hc, flag, (hi, hs), at) =
      let P = payload_of m in
      let size : length P ≤ 4096 = omega (arith, length-append m.conn_id m.content) in
      let S = L.stream in
      let (a₀, a₁, a₂, a₃, t, p) = four (pending w) (omega (arith, StartsAt-length k _ _ at)) in
      let q : pending (S.after 4 w) ≡ t = S.pending-after 4 w ∙ ap (drop 4) p in
      let (w₁, found, p₁) =
        resync_finds H S k (max_resync_bytes + 1) 0 a₀ a₁ a₂ a₃ (S.after 4 w)
          (to_bytes uint32_size (length P) ++ (P ++ (crc_bytes ++ rest))) (omega arith)
          (omega arith) (rw q (rw p at at)) in
      let (r, left) =
        read_frame_parts H S (to_bytes uint32_size (length P)) P crc_bytes rest w₁ p₁
          (length-to_bytes 4 _) (from_bytes-to_bytes 4 (length P) (omega arith)) hc size in
      (_, decode_found H S a₀ a₁ a₂ a₃ t w p found ∙ rw flag r, left)

  -- From a line on which a message stands, `decode_message` returns this message, with the CRC flag
  -- that its CRC field gives, behind at most 8192 stray bytes; what follows it is left on the line,
  -- and nothing is written.
  pub decode_message-Stands :
      (m : Decoded) (rest : Bytes) (w : W)
      → Stands H m (pending w) rest
      → Does (decode_message H) w λ m' w'. (m' ≡ m) × (pending w' ≡ rest) × (written w' ≡ written w)
  unfolding decode_message
  decode_message-Stands m rest w stands =
      let (w', d, left) = decode-Stands m rest w stands in
      let (_, _, _, _, _, (sized, _), _) = stands in
      let parsed = parse_message-payload m.msg_type m.conn_id m.content m.crc_ok sized in
      record {
        value = m;
        next = w';
        runs = rw (d, parsed);
        holds = (refl, left, ap (λ p. written p.1) (sym d) ∙ decode-SameWritten.moves w);
      }

  -- A line on which nothing is left is silent.
  pub decode_message-silent :
      (w : W)
      → pending w ≡ []
      → (w' : W) × (decode_message H w ≡ (err transport_error, w'))
        × (pending w' ≡ [])
        × (written w' ≡ written w)
  unfolding decode_message decode parse_message
  decode_message-silent w e = (
    L.stream.after 4 w,
    rw (L.stream.reads 4 w, e),
    L.stream.pending-after 4 w ∙ ap (drop 4) e,
    L.written-after 4 w,
  )
