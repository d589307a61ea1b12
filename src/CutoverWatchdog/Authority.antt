-- ===== src/CutoverWatchdog/Authority.antt =====
-- What authorizes scripts/cutover_watchdog.py to start a container or to close the public services,
-- read off its calls.
pub mod Facts
pub mod Starts
pub mod Run
use map_service_infra.Base.{
  String, ◌≡◌, Bool, true, false, List, [], ◌∷◌, contains, string_eq, ◌⊎◌, none, some,
}
use map_service_infra.Base.Json.{Json, Fields}
use map_service_infra.Base.Result.{Result, ok, err}
use map_service_infra.Base.World.{Trace}
use map_service_infra.CutoverWatchdog.{
  Call, Host, scope, latch, maintenance, receipt, inspect, start, stop_public, idle, terminal,
  agrees,
}
use map_service_infra.CutoverWatchdog.Receipt.{Item, Latch, parse_item, public_of, is_hold}

abbrev pub ShowsPublic : Fields → Result Json → Type 0
ShowsPublic p (ok v) = public_of v ≡ p
ShowsPublic p (err e) = ⊥

abbrev pub ShowsItem : Item → Result Json → Type 0
ShowsItem i (ok v) = parse_item v ≡ ok i
ShowsItem i (err e) = ⊥

abbrev pub ShowsIdle : Result String → Type 0
ShowsIdle (ok s) = idle s ≡ true
ShowsIdle (err e) = ⊥

module _ (h : Host) where
  -- The latest state of the receiver's unit is that it has ended.
  abbrev pub Idle : Trace Call → Type 0
  Idle [] = ⊥
  Idle ((scope, _) ∷ t) = ShowsIdle (h.scope t)
  Idle (_ ∷ t) = Idle t

  -- The latest latch that was read.
  abbrev pub LatchedAs : Latch → Trace Call → Type 0
  LatchedAs l [] = ⊥
  LatchedAs l ((latch, _) ∷ t) = h.latch t ≡ ok (some l)
  LatchedAs l (_ ∷ t) = LatchedAs l t

  -- The latest reading of the maintenance file found none.
  abbrev pub NoHold : Trace Call → Type 0
  NoHold [] = ⊥
  NoHold ((maintenance, _) ∷ t) = h.maintenance t ≡ ok none
  NoHold (_ ∷ t) = NoHold t

  -- The latest reading of the maintenance file found a valid hold.
  abbrev pub OnHold : Trace Call → Type 0
  OnHold [] = ⊥
  OnHold ((maintenance, _) ∷ t) =
      (v : Json) × (h.maintenance t ≡ ok (some v)) × (is_hold h.instance_id v ≡ true)
  OnHold (_ ∷ t) = OnHold t

  -- The identities of the ready receipt that was read last.
  abbrev pub PublicIs : Fields → Trace Call → Type 0
  PublicIs p [] = ⊥
  PublicIs p ((receipt, _) ∷ t) = ShowsPublic p (h.receipt t)
  PublicIs p (_ ∷ t) = PublicIs p t

  -- Some inspection showed the container so.
  abbrev pub Seen : Item → Trace Call → Type 0
  Seen i [] = ⊥
  Seen i ((inspect cid, _) ∷ t) = ShowsItem i (h.inspect cid t) ⊎ Seen i t
  Seen i (_ ∷ t) = Seen i t

  -- The latch is terminal, nothing holds, and the container is the recorded one, without restart by
  -- Docker, and down.
  abbrev pub MayStart : Item → Trace Call → Type 0
  MayStart i t =
      ((l : Latch) × LatchedAs l t × (contains terminal l.phase ≡ true))
      × Idle t
      × NoHold t
      × ((p : Fields) × (service : String) × PublicIs p t × (agrees p service i ≡ true))
      × Seen i t
      × (i.running ≡ false)

  -- A hold, or a latch that is not terminal.
  abbrev pub MayStop : Trace Call → Type 0
  MayStop t =
      Idle t × ((l : Latch) × LatchedAs l t × (OnHold t ⊎ (contains terminal l.phase ≡ false)))

  abbrev pub Authorized : Trace Call → Type 0
  Authorized [] = Unit
  Authorized ((start cid, _) ∷ t) = ((i : Item) × (i.id ≡ cid) × MayStart i t) × Authorized t
  Authorized ((stop_public, _) ∷ t) = MayStop t × Authorized t
  Authorized (_ ∷ t) = Authorized t
