-- ===== src/Peering/Agreement.antt =====
-- peering.py: `establish_peer` on both sides of a line.
use serial_testkit.Prelude.{
  ℕ, ◌<◌, ◌≡◌, refl, ap, Bool, true, false, not, ◌⊎◌, Option, none, some, ltb, if◌then◌else◌, arith,
}
use serial_testkit.Prelude.Bytes.{Bytes}
use serial_testkit.Exec.{ok, lift, attempt}
use serial_testkit.Exec.Yields.{Yields, IfSome, Yields-pure, Yields-if, Yields-bind, Yields-then}
use serial_testkit.Host.{Host}
use serial_testkit.Timed.{Round, again}
use serial_testkit.Timed.Returns.{RoundOf, within-Yields}
use serial_testkit.Peering.Codec.{
  PeerInfo, make_test_id, make_peer_ack, parse_peer_init, parse_peer_ack,
}
use serial_testkit.Peering.Establish.{
  PeerDevice, Race, no_peer, is_serial_timeout, on_ack, on_first_init, on_payload, on_read, on_sent,
  send_init, establish_round, establish_peer,
}

-- What one side should come to, from both sides' timestamps and durations: the earlier timestamp
-- leads, and gives the test id and the duration.
abbrev pub role_of : ℕ → ℕ → ℕ → ℕ → PeerInfo
role_of our_timestamp duration their_timestamp their_duration =
    if ltb our_timestamp their_timestamp
    then record {
      is_initiator = true;
      test_id = make_test_id our_timestamp;
      duration = duration;
      peer_timestamp = 0;
    }
    else record {
      is_initiator = false;
      test_id = make_test_id their_timestamp;
      duration = their_duration;
      peer_timestamp = their_timestamp;
    }

-- A PEER_INIT in the payload is the peer's.
abbrev pub IsFrom : ℕ → ℕ → Option (ℕ × ℕ) → Type 0
IsFrom their_ts their_duration none = Unit
IsFrom their_ts their_duration (some (t, d)) = (t ≡ their_ts) × (d ≡ their_duration)

abbrev pub ReadsFrom : ℕ → ℕ → Option Bytes × Bool → Type 0
ReadsFrom their_ts their_duration (none, good) = Unit
ReadsFrom their_ts their_duration (some payload, good) =
    IsFrom their_ts their_duration (parse_peer_init payload)

-- The device is connected to one peer: every PEER_INIT that it reads is that peer's.
abbrev pub HearsOnly : {W : Type 0} → PeerDevice W → ℕ → ℕ → Type 0
HearsOnly dev their_ts their_duration = Yields (ReadsFrom their_ts their_duration) dev.read_msg

module _ {W : Type 0} (H : Host W) (dev : PeerDevice W)
    (our_ts duration their_ts their_duration : ℕ)
    (hears : HearsOnly dev their_ts their_duration) where
  -- The loop goes on as long as nothing was heard, or as the earlier side waiting for its PEER_ACK.
  record IsRacing (s : Race) : Type 0 where
    leads : s.is_initiator ≡ true → our_ts < their_ts
    named : s.is_initiator ≡ true → s.test_id ≡ make_test_id our_ts

  abbrev IsRole : PeerInfo → Type 0
  IsRole info = info ≡ role_of our_ts duration their_ts their_duration

  abbrev Next : Round Race PeerInfo → Type 0
  Next = RoundOf IsRacing IsRole

  on_ack-Next : (s : Race) (o : Option ℕ) → IsRacing s → Next (on_ack duration s o)
  unfolding on_ack
  on_ack-Next s none h = h
  on_ack-Next s (some id) h = ground (arith, h.leads, h.named)

  on_first_init-Next : Yields Next (on_first_init H dev our_ts duration their_ts their_duration)
  unfolding on_first_init
  on_first_init-Next =
      Yields-if (ltb our_ts their_ts) _ _ (λ first. Yields-pure _ (leader first))
        (λ later. Yields-then dev.flush_buffers _ λ _.
          Yields-then (lift (make_peer_ack (make_test_id their_ts))) _
            λ msg. Yields-then (dev.write_msg msg) _ λ _. Yields-pure _ (follower later))
    where
      leader :
          ltb our_ts their_ts ≡ true
          → IsRacing (record {
            peer_timestamp = some their_ts;
            is_initiator = true;
            test_id = make_test_id our_ts;
          })
      leader first = record { leads = λ _. ground arith; named = λ _. refl }

      follower :
          ltb our_ts their_ts ≡ false
          → IsRole (record {
            is_initiator = false;
            test_id = make_test_id their_ts;
            duration = their_duration;
            peer_timestamp = their_ts;
          })
      follower later = rw later

  on_payload-Next :
      (s : Race) (i : Option (ℕ × ℕ)) (p a : Option ℕ)
      → IsRacing s
      → IsFrom their_ts their_duration i
      → Yields Next (on_payload H dev our_ts duration s i p a)
  unfolding on_payload
  on_payload-Next s (some (t, d)) none a h (et, ed) = rw (et, ed) on_first_init-Next
  on_payload-Next s (some (t, d)) (some q) a h k = Yields-pure _ (on_ack-Next s a h)
  on_payload-Next s none p a h k = Yields-pure _ (on_ack-Next s a h)

  on_sent-Next :
      (s : Race) (o : Option ℕ) → IsRacing s → Yields Next (on_sent H dev our_ts duration s o)
  on_sent-Next s none h = Yields-pure (again s) h
  on_sent-Next s (some n) h =
      Yields-bind dev.read_msg _ hears
        (λ ((payload, good) : Option Bytes × Bool) k. heard payload good k)
    where
      heard :
          (payload : Option Bytes) (good : Bool)
          → ReadsFrom their_ts their_duration (payload, good)
          → Yields Next (on_read H dev our_ts duration s payload)
      heard none good k = Yields-pure (again s) h
      heard (some payload) good k =
          on_payload-Next s (parse_peer_init payload) s.peer_timestamp (parse_peer_ack payload) h k

  establish_round-Next :
      (s : Race) → IsRacing s → Yields Next (establish_round H dev our_ts duration s)
  unfolding establish_round
  establish_round-Next s h =
      Yields-then (attempt is_serial_timeout (send_init H dev our_ts duration)) _
        λ sent. on_sent-Next s sent h

  establish_peer-Yields :
      (timeout : ℕ) → Yields (IfSome IsRole) (establish_peer H dev our_ts duration timeout)
  unfolding establish_peer
  establish_peer-Yields timeout =
      within-Yields H IsRacing IsRole (establish_round H dev our_ts duration) establish_round-Next
        timeout no_peer (record { leads = λ e. absurd (cc); named = λ e. absurd (cc) })

  -- On a device that hears one peer only, `establish_peer` returns None or the role that the two
  -- timestamps give this side, with the earlier side's test id and duration.
  pub establish_peer-role_of :
      (timeout : ℕ) (w w' : W) (info : PeerInfo)
      → establish_peer H dev our_ts duration timeout w ≡ (ok (some info), w')
      → info ≡ role_of our_ts duration their_ts their_duration
  establish_peer-role_of timeout w w' info e =
      (establish_peer-Yields timeout).yields w (some info) (ap (λ p. p.0) e)

abbrev Agree : ℕ → ℕ → PeerInfo → PeerInfo → Type 0
Agree ts ts' info info' =
    (info.test_id ≡ info'.test_id)
    × ((info.is_initiator ≡ not info'.is_initiator) × (info.duration ≡ info'.duration)
        ⊎ (ts ≡ ts') × (info.is_initiator ≡ false) × (info'.is_initiator ≡ false))

roles-Agree : (ts d ts' d' : ℕ) → Agree ts ts' (role_of ts d ts' d') (role_of ts' d' ts d)
roles-Agree ts d ts' d' = ground arith

-- Two peers that hear one another only, on their own devices and clocks, and that both establish:
-- they have the same test id; if their timestamps differ, exactly one is the initiator and they
-- have the same duration; if their timestamps are equal, both are responders.
pub establish_peer-agree :
    {W : Type 0} (H K : Host W) (dev dev' : PeerDevice W) (ts d ts' d' timeout timeout' : ℕ)
    (v v' w w' : W) (info info' : PeerInfo)
    → HearsOnly dev ts' d'
    → HearsOnly dev' ts d
    → establish_peer H dev ts d timeout v ≡ (ok (some info), v')
    → establish_peer K dev' ts' d' timeout' w ≡ (ok (some info'), w')
    → (info.test_id ≡ info'.test_id)
      × ((info.is_initiator ≡ not info'.is_initiator) × (info.duration ≡ info'.duration)
          ⊎ (ts ≡ ts') × (info.is_initiator ≡ false) × (info'.is_initiator ≡ false))
establish_peer-agree H K dev dev' ts d ts' d' timeout timeout' v v' w w' info info' h h' e e' =
    let ours = establish_peer-role_of H dev ts d ts' d' h timeout v v' info e in
    let theirs = establish_peer-role_of K dev' ts' d' ts d h' timeout' w w' info' e' in
    rw (ours, theirs) (roles-Agree ts d ts' d')
