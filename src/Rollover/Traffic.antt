-- ===== src/Rollover/Traffic.antt =====
-- Where the proxy's traffic goes while scripts/service-rollover.py runs, read off its calls.
pub mod Parts
pub mod Moves
pub mod Ordering
pub mod Whole
pub mod Left
use map_service_infra.Base.{
  ℕ, String, ◌≡◌, refl, Bool, true, false, Option, none, some, List, [], ◌∷◌, arith, ◌⊎◌, inl, inr,
}
use map_service_infra.Base.Result.{Error, Result, ok, err}
use map_service_infra.Base.World.{Trace}
use map_service_infra.Rollover.Arguments.{Entry, Arg, create_args}
use map_service_infra.Rollover.{
  Call, Host, Order, copy_name, image_id, container_of, stale, state, stats, networks, address,
  start, stop, remove, memory_available, disk_free, proxy_mount, nginx_test, unlink_override,
  recreate, sleep, connect, create, health_request, public_request, write_override, reload,
}

-- Calls that neither move traffic, nor ask a container for its health page or its address, nor
-- create, start, stop, remove or recreate one.
abbrev pub Quiet : Call → Type 0
Quiet recreate = ⊥
Quiet (reload o) = ⊥
Quiet (health_request host) = ⊥
Quiet (address cid) = ⊥
Quiet (create args) = ⊥
Quiet (start cid) = ⊥
Quiet (stop seconds cid) = ⊥
Quiet (remove cid) = ⊥
Quiet _ = Unit {0}

-- Every other call than the recreation of the canonical container.
abbrev pub Still : Call → Type 0
Still recreate = ⊥
Still _ = Unit {0}

module _ (h : Host) (o : Order) where
  -- Docker created the container `cid` from arguments that are those of the copy, with its name.
  abbrev pub Made : String → List Arg → Trace Call → Type 0
  Made cid args t =
      ((env : List (String × String)) × (h.create args env t ≡ ok cid))
      × ((entry : Entry) × (joined : List String) × (drain : ℕ) × (create_args (copy_name h o)
              o.project o.service entry joined drain
            ≡ ok args))

  -- The container created last is `cid`, the copy.
  abbrev pub Created : String → Trace Call → Type 0
  Created cid [] = ⊥
  Created cid ((create args, _) ∷ t) = Made cid args t
  Created cid ((start c, _) ∷ t) = ⊥
  Created cid ((stop seconds c, _) ∷ t) = ⊥
  Created cid ((remove c, _) ∷ t) = ⊥
  Created cid ((recreate, _) ∷ t) = ⊥
  Created cid (_ ∷ t) = Created cid t

  -- It was started, and no container was stopped, removed, created or started after it.
  abbrev pub Started : String → Trace Call → Type 0
  Started cid [] = ⊥
  Started cid ((start c, true) ∷ t) = (c ≡ cid) × Created cid t
  Started cid ((start c, false) ∷ t) = ⊥
  Started cid ((create args, _) ∷ t) = ⊥
  Started cid ((stop seconds c, _) ∷ t) = ⊥
  Started cid ((remove c, _) ∷ t) = ⊥
  Started cid ((recreate, _) ∷ t) = ⊥
  Started cid (_ ∷ t) = Started cid t

  -- The address that docker gave last is `host`, that of the copy.
  abbrev pub Found : String → Trace Call → Type 0
  Found host [] = ⊥
  Found host ((address cid, true) ∷ t) = (h.address cid t ≡ ok host) × Started cid t
  Found host ((address cid, false) ∷ t) = ⊥
  Found host ((start c, _) ∷ t) = ⊥
  Found host ((create args, _) ∷ t) = ⊥
  Found host ((stop seconds c, _) ∷ t) = ⊥
  Found host ((remove c, _) ∷ t) = ⊥
  Found host ((recreate, _) ∷ t) = ⊥
  Found host (_ ∷ t) = Found host t

  -- The last health request went to the address of the copy and was answered with 200.
  abbrev pub Answered : Trace Call → Type 0
  Answered [] = ⊥
  Answered ((health_request host, _) ∷ t) = (h.health_request host t ≡ ok 200) × Found host t
  Answered ((address cid, _) ∷ t) = ⊥
  Answered ((start c, _) ∷ t) = ⊥
  Answered ((create args, _) ∷ t) = ⊥
  Answered ((stop seconds c, _) ∷ t) = ⊥
  Answered ((remove c, _) ∷ t) = ⊥
  Answered ((recreate, _) ∷ t) = ⊥
  Answered (_ ∷ t) = Answered t

  -- The last reload of the proxy succeeded and points at the name of the copy, which had answered.
  abbrev pub OnCopy : Trace Call → Type 0
  OnCopy [] = ⊥
  OnCopy ((reload (some name), true) ∷ t) = (name ≡ copy_name h o) × Answered t
  OnCopy ((reload (some name), false) ∷ t) = ⊥
  OnCopy ((reload none, _) ∷ t) = ⊥
  OnCopy ((stop seconds c, _) ∷ t) = ⊥
  OnCopy ((remove c, _) ∷ t) = ⊥
  OnCopy (_ ∷ t) = OnCopy t

  -- The canonical container is only recreated while the copy serves.
  abbrev pub Ordered : Trace Call → Type 0
  Ordered [] = Unit
  Ordered ((recreate, _) ∷ t) = OnCopy t × Ordered t
  Ordered (_ ∷ t) = Ordered t
