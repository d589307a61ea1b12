-- ===== src/Serving/Door/Openings.antt =====
-- The steps of `execute` that start or stop the edge (scripts/ncp-production-serving.py).
use map_service_infra.Base.{
  String, ◌≡◌, sym, subst, Bool, true, false, some, arith, string_eq, ◌⊎◌, inl, inr, option_eq,
}
use map_service_infra.Base.Result.{Error}
use map_service_infra.Base.Exec.{when, ◌>>=◌, attempt}
use map_service_infra.Base.Exec.Rules.{Post, Triple, Post-weaken}
use map_service_infra.Serving.Configuration.{Config}
use map_service_infra.Serving.{
  Backend, State, Receipt, Reply, Action, action_eq, close, open_public, open_private, serve_public,
  may_publish, check_public, File,
}
use map_service_infra.Serving.Door.{
  Door, door, torn, lost, claims_open, claims_ready, claims_not_resumed, ends_probed, Fresh, Opened,
  Safe, Torn, Failed,
}

module _ (b : Backend) (f : File) (d : Door) where
  pub close_lem :
      (previous : Receipt) (e : Error) (w : State)
      → Fresh f w ⊎ Torn w
      → Post (λ _ _. ⊥) (λ _ v. Failed f d v) (close b previous e w).0 (close b previous e w).1
  unfolding close door lost ◌>>=◌ attempt
  close_lem previous e w h = ground (
    arith,
    claims_not_resumed (some "PUBLIC_STOP_FAILED") (some "UNKNOWN"),
    claims_not_resumed (some "SERVING_FAILED") (some "HOLD"),
  )

  abbrev pub Settled : Reply → State → Type 0
  Settled _ v = Opened v ⊎ Safe f d v

  abbrev pub AnyError : Error → State → Type 0
  AnyError _ v = Fresh f v ⊎ Torn v

  pub open_private_lem :
      (binding : String) → Triple (Fresh f) (open_private b binding) (λ _ v. Safe f d v) AnyError
  unfolding open_private door ◌>>=◌ attempt
  open_private_lem binding = record {
    at = λ w h. ground (arith, claims_not_resumed (some "PRIVATE_READY") (some "HOLD"));
  }

  open_public_frame :
      (c : Config) (r : Receipt) (w : State)
      → Post
          (λ _ v. Opened v)
          (λ _ v. (v.own.file ≡ w.own.file) ⊎ Torn v)
          (open_public b c r w).0
          (open_public b c r w).1
  unfolding open_public ends_probed torn ◌>>=◌
  open_public_frame c r w = ground (arith, claims_ready)

  of_frame : (w v : State) → Fresh f w → (v.own.file ≡ w.own.file) ⊎ Torn v → Fresh f v ⊎ Torn v
  of_frame w v h (inl e) = inl (subst (λ g. (g ≡ f) ⊎ (claims_open g ≡ false)) (sym e) h)
  of_frame w v h (inr e) = inr e

  pub serve_public_lem :
      (publishes : Bool) (c : Config) (r : Receipt)
      → Triple (Safe f d) (serve_public b publishes c r) Settled AnyError
  unfolding serve_public
  serve_public_lem false c r = record { at = λ w h. inr h }
  serve_public_lem true c r = record {
    at = λ w h.
        Post-weaken (λ _ v. Opened v) (λ _ v. (v.own.file ≡ w.own.file) ⊎ Torn v) (λ a v k. inl k)
          (λ e v k. of_frame w v h.1 k) (open_public b c r w).0 (open_public b c r w).1
          (open_public_frame c r w);
  }

  pub may_publish_lem :
      (action : Action) (previous : Receipt) (binding : String)
      → Triple (Fresh f) (may_publish b action previous binding) (λ _ v. Fresh f v) AnyError
  unfolding may_publish ◌>>=◌
  may_publish_lem action previous binding = record { at = λ w h. ground arith }

  pub check_public_lem :
      (publishes : Bool) (action : Action) (previous : Receipt) (c : Config)
      → Triple
          (Fresh f)
          (when publishes (check_public b action previous c))
          (λ _ v. Fresh f v)
          AnyError
  unfolding check_public ◌>>=◌
  check_public_lem publishes action previous c = record { at = λ w h. ground arith }
