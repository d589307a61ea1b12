-- ===== src/Serving/Gate.antt =====
-- The receipts on which `publish` and `resume` go on (scripts/ncp-production-serving.py).
use map_service_infra.Base.{
  String, ◌≡◌, refl, subst, Bool, true, false, Option, some, List, [], ◌∷◌, arith, contains,
  string_eq, option_eq, ◌==◌, eq_of_==, ◌||◌, if◌then◌else◌, and_left, and_right, inl,
}
use map_service_infra.Base.Json.{Json}
use map_service_infra.Base.Result.{Error, ok}
use map_service_infra.Base.Exec.{raise, lift}
use map_service_infra.Base.Exec.Rules.{
  Post, Triple, Triple-bind, Triple-trivial, Triple-attempt, Triple-weaken, Triple-const,
  Triple-pure, Triple-require, Triple-given, Post-weaken,
}
use map_service_infra.Base.World.{Trace, call, Triple-call}
use map_service_infra.Serving.Configuration.{Config, configuration}
use map_service_infra.Serving.{
  Call, Backend, State, Receipt, Action, action_eq, may_publish, execute, File, verify, publish,
  resume, start_private, stop_public, run, stop_and_hold, attempt_action, recover, serve,
  read_inputs, read_or_given, set_inputs, resumable, inputs, close, is_true, pg, rendered, lock,
  private_dir,
}
use map_service_infra.Serving.Door.{Failed, closed}
use map_service_infra.Serving.Door.Openings.{close_lem}
use map_service_infra.Serving.Intent.{found, read_found}

-- The statuses from which an action publishes or may publish.
abbrev pub statuses : Action → List (Option String)
statuses publish = some "PRIVATE_READY" ∷ []
statuses resume = some "PRIVATE_READY" ∷ some "PUBLIC_READY" ∷ some "PUBLIC_STOPPED" ∷ []
statuses _ = []

-- The receipt is in one of the statuses, and its binding is that of inputs that the backend read.
abbrev pub Granted : Backend → Action → Receipt → Type 0
Granted b action old =
    (contains (statuses action) old.status ≡ true)
    × ((c : Config) × (t : Trace Call) × (binding : String) × (b.inputs c t ≡ ok binding)
        × (old.binding ≡ some binding))

-- `publish` and `resume` need a receipt.
abbrev pub NeedsReceipt : Action → Type 0
NeedsReceipt publish = Unit
NeedsReceipt resume = Unit
NeedsReceipt _ = ⊥

module _ (b : Backend) where
  abbrev Whatever : Error → State → Type 0
  Whatever _ _ = Unit {0}

  abbrev ReadOf : Config → String → Type 0
  ReadOf c binding = (t : Trace Call) × (b.inputs c t ≡ ok binding)

  inputs_lem :
      (c : Config)
      → Triple (λ _. Unit {0}) (call inputs (b.inputs c)) (λ binding _. ReadOf c binding) Whatever
  inputs_lem c =
      Triple-call (λ binding _. ReadOf c binding) Whatever inputs (b.inputs c)
        (λ w h a e. (w.trace, e)) (λ w h x e. tt)

  read_inputs_lem :
      (given : Option Json)
      → Triple (λ _. Unit {0}) (read_inputs b given) (λ r _. ReadOf r.0 r.1) Whatever
  unfolding read_inputs
  read_inputs_lem given =
      Triple-bind (λ _ _. Unit {0}) (Triple-trivial (read_or_given b given))
        (λ value.
          Triple-bind (λ _ _. Unit {0}) (Triple-trivial (lift (configuration value)))
            (λ c.
              Triple-bind (λ binding _. ReadOf c binding) (inputs_lem c)
                (λ binding.
                  Triple-bind (λ _ _. ReadOf c binding)
                    (Triple-const (ReadOf c binding) (set_inputs b (some binding)))
                    (λ _.
                      Triple-bind (λ _ _. ReadOf c binding)
                        (Triple-const (ReadOf c binding) (call pg b.pg))
                        (λ _.
                          Triple-bind (λ _ _. ReadOf c binding)
                            (Triple-const (ReadOf c binding) (call rendered b.rendered))
                            (λ _. Triple-pure (c, binding) (λ s h. h)))))))

  or_false : (x : Bool) → x ≡ true → (x || false) ≡ true
  or_false x e = ground arith

  -- Passing the receipt's gate gives what `Granted` asks.
  passed :
      (action : Action) (old : Receipt) (c : Config) (binding : String)
      → NeedsReceipt action
      → Triple
          (λ _. ReadOf c binding)
          (may_publish b action old binding)
          (λ _ _. Granted b action old)
          Whatever
  unfolding may_publish resumable
  passed publish old c binding n =
      Triple-bind (λ _ _. Granted b publish old)
        (Triple-require _ _
          (λ e s h. (
            or_false (old.status == some "PRIVATE_READY") (and_right _ _ e),
            (c, h.0, binding, h.1, eq_of_== old.binding (some binding) (and_left _ _ e)),
          ))
          (λ e s h. tt))
        (λ _. Triple-pure true (λ s h. h))
  passed resume old c binding n =
      Triple-bind (λ _ _. Granted b resume old)
        (Triple-require _ _
          (λ e s h. (
            and_right _ _ e,
            (c, h.0, binding, h.1, eq_of_== old.binding (some binding) (and_left _ _ e)),
          ))
          (λ e s h. tt))
        (λ _. Triple-pure (is_true old.resume_public) (λ s h. h))
  passed verify old c binding n = absurd n
  passed start_private old c binding n = absurd n
  passed stop_public old c binding n = absurd n

  serve-Granted :
      (action : Action) (old : Receipt) (c : Config) (binding : String)
      → NeedsReceipt action
      → Triple
          (λ _. ReadOf c binding)
          (serve b action old c binding)
          (λ _ _. Granted b action old)
          Whatever
  unfolding serve
  serve-Granted action old c binding n =
      Triple-bind (λ _ _. Granted b action old) (passed action old c binding n)
        (λ publishes. Triple-const (Granted b action old) _)

  attempt-Granted :
      (action : Action) (given : Option Json) (old : Receipt)
      → NeedsReceipt action
      → Triple
          (λ _. Unit {0})
          (attempt_action b action given old)
          (λ _ _. Granted b action old)
          Whatever
  unfolding attempt_action action_eq
  attempt-Granted publish given old n =
      Triple-bind (λ r _. ReadOf r.0 r.1) (read_inputs_lem given)
        (λ r. serve-Granted publish old r.0 r.1 n)
  attempt-Granted resume given old n =
      Triple-bind (λ r _. ReadOf r.0 r.1) (read_inputs_lem given)
        (λ r. serve-Granted resume old r.0 r.1 n)
  attempt-Granted verify given old n = absurd n
  attempt-Granted start_private given old n = absurd n
  attempt-Granted stop_public given old n = absurd n

  never_returns :
      (action : Action) (old : Receipt) (e : Error)
      → Triple (λ _. Unit {0}) (recover b action old e) (λ _ _. Granted b action old) Whatever
  unfolding recover
  never_returns action old e = record { at = λ s h. raises (action == verify) s }
    where
      raises :
          (same : Bool) (s : State)
          → Post
              (λ _ _. Granted b action old)
              Whatever
              ((if same then raise e else close b old e) s).0
              ((if same then raise e else close b old e) s).1
      raises true s = tt
      raises false s =
          Post-weaken (λ _ _. ⊥) (λ _ v. Failed s.own.file closed v) (λ _ _ k. absurd k)
            (λ _ _ k. tt) (close b old e s).0 (close b old e s).1
            (close_lem b s.own.file closed old e s (inl (inl refl)))

  run-Granted :
      (action : Action) (given : Option Json) (f : File)
      → NeedsReceipt action
      → Triple
          (λ v. v.own.file ≡ f)
          (run b action given)
          (λ _ _. Granted b action (found f))
          Whatever
  unfolding run
  run-Granted action given f n =
      Triple-bind (λ old _. old ≡ found f) (read_found b f)
        (λ old.
          Triple-bind (λ _ _. old ≡ found f) (Triple-const (old ≡ found f) _)
            (λ _.
              Triple-bind (λ _ _. old ≡ found f) (Triple-const (old ≡ found f) _)
                (λ _. Triple-given (λ e.
                  Triple-weaken (λ _ _. Granted b action old) Whatever
                    (Triple-attempt Whatever (attempt-Granted action given old n)
                      (λ x. never_returns action old x))
                    (λ s k. tt) (λ _ _ k. subst (Granted b action) e k) (λ _ _ k. k)))))

  execute-Granted' :
      (action : Action) (given : Option Json) (keep : Bool) (f : File)
      → NeedsReceipt action
      → Triple
          (λ v. v.own.file ≡ f)
          (if action == stop_public then stop_and_hold b keep else run b action given)
          (λ _ _. Granted b action (found f))
          Whatever
  unfolding action_eq
  execute-Granted' publish given keep f n = run-Granted publish given f n
  execute-Granted' resume given keep f n = run-Granted resume given f n
  execute-Granted' verify given keep f n = absurd n
  execute-Granted' start_private given keep f n = absurd n
  execute-Granted' stop_public given keep f n = absurd n

-- A `publish` or `resume` that returns found a receipt in one of the action's statuses whose binding
-- is that of inputs that the backend read: `publish` needs PRIVATE_READY; `resume` needs
-- PRIVATE_READY, PUBLIC_READY or PUBLIC_STOPPED, so neither follows a failed run.
pub execute-Granted :
    (b : Backend) (action : Action) (given : Option Json) (keep : Bool) (w : State)
    → NeedsReceipt action
    → Post
        (λ _ _. Granted b action (found w.own.file))
        (λ _ _. Unit {0})
        (execute b action given keep w).0
        (execute b action given keep w).1
unfolding execute
execute-Granted b action given keep w n =
    (Triple-bind (λ _ v. v.own.file ≡ w.own.file)
        (Triple-call (λ _ v. v.own.file ≡ w.own.file) (Whatever b) private_dir b.private_dir
          (λ v h a e. h) (λ v h x e. tt))
        (λ _.
          Triple-bind (λ _ v. v.own.file ≡ w.own.file)
            (Triple-call (λ _ v. v.own.file ≡ w.own.file) (Whatever b) lock b.lock (λ v h a e. h)
              (λ v h x e. tt))
            (λ _. execute-Granted' b action given keep w.own.file n))).at
      w refl
