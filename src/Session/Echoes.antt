-- ===== src/Session/Echoes.antt =====
-- session/exchange.py: what the server's loop answers, and how the peer reads it.
use serial_testkit.Prelude.{
  ◌≤◌, ◌≡◌, refl, true, List, [], ◌∷◌, ◌++◌, append_assoc, length, All, arith,
}
use serial_testkit.Prelude.Bytes.{Bytes}
use serial_testkit.Host.{Host}
use serial_testkit.Host.Laws.{IsCrc32}
use serial_testkit.Message.{max_payload_size}
use serial_testkit.Message.Frames.{frame}
use serial_testkit.Encoding.{Decoded}
use serial_testkit.Encoding.Soundness.{payload_of, HasSize}
use serial_testkit.Session.Refines.Reports.{IsDataOn, good_count}
use serial_testkit.Channel.{Carries, frames}
use serial_testkit.Channel.Hears.{frame-Stands}

-- `data if data else random_payload()`: the data, or at most 256 bytes for no data.
abbrev pub IsEcho : Bytes → Bytes → Type 0
IsEcho [] content = length content ≤ max_payload_size
IsEcho (b ∷ bs) content = content ≡ b ∷ bs

-- The answer to a message, as its receiver reads it: a DATA message of the connection, whose CRC is
-- good, with the data of the message or with random data for an empty one.
pub record Echoes (conn_id : Bytes) (m e : Decoded) : Type 0 where
  pub is_data : IsDataOn conn_id e
  pub is_good : e.crc_ok ≡ true
  pub is_sized : HasSize e
  pub is_echo : IsEcho m.content e.content

-- The answers to the first messages of a list.
abbrev pub AllEcho : Bytes → List Decoded → List Decoded → Type 0
AllEcho conn_id ms [] = Unit
AllEcho conn_id [] (e ∷ es) = ⊥
AllEcho conn_id (m ∷ ms) (e ∷ es) = Echoes conn_id m e × AllEcho conn_id ms es

module _ (conn_id : Bytes) where
  pub AllEcho-data : (ms es : List Decoded) → AllEcho conn_id ms es → All (IsDataOn conn_id) es
  AllEcho-data ms [] h = tt
  AllEcho-data [] (e ∷ es) h = absurd h
  AllEcho-data (m ∷ ms) (e ∷ es) (h, hs) = (h.is_data, AllEcho-data ms es hs)

  pub AllEcho-good_count :
      (ms es : List Decoded) → AllEcho conn_id ms es → good_count es ≡ length es
  unfolding good_count
  AllEcho-good_count ms [] h = refl
  AllEcho-good_count [] (e ∷ es) h = absurd h
  AllEcho-good_count (m ∷ ms) (e ∷ es) (h, hs) =
      rw (h.is_good, AllEcho-good_count ms es hs) (omega arith)

module _ {V W : Type 0} (G : Host V) (H : Host W) (crc : IsCrc32 G)
    (same_crc : (bs : Bytes) → G.crc32 bs ≡ H.crc32 bs) where
  -- What one host writes for answers is read by another as these answers.
  pub frames-Carries :
      (conn_id : Bytes) (ms es : List Decoded) (rest : Bytes)
      → AllEcho conn_id ms es
      → Carries H es (frames G es ++ rest) rest
  frames-Carries conn_id ms [] rest h = refl
  frames-Carries conn_id [] (e ∷ es) rest h = absurd h
  frames-Carries conn_id (m ∷ ms) (e ∷ es) rest (h, hs) =
      let F = frame G (payload_of e) in
      (
        frames G es ++ rest,
        rw (append_assoc F (frames G es) rest)
            (frame-Stands G H crc same_crc e (frames G es ++ rest) (h.is_good, h.is_sized)),
        frames-Carries conn_id ms es rest hs,
      )
