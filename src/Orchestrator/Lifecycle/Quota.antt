-- ===== src/Orchestrator/Lifecycle/Quota.antt =====
-- The quota across a reconciliation cycle, which reads it anew.
use gh_runner.Prelude.{
  ℕ, ◌≤◌, ◌<◌, ◌≡◌, refl, ap, Bool, true, false, Option, none, some, List, arith, if◌then◌else◌,
  max,
}
use gh_runner.Prelude.Text.{GoString, codes}
use gh_runner.Orchestrator.Tracking.{RunnerStatus, total_active}
use gh_runner.Orchestrator.Tracking.Valid.{IsValid}
use gh_runner.Orchestrator.Tracking.Moves.{Moves-IsValid, Moves-total}
use gh_runner.Orchestrator.Audit.{AuditReport}
use gh_runner.Orchestrator.Audit.Exact.{audit_sync}
use gh_runner.Orchestrator.Platform.{Platform, Options}
use gh_runner.Orchestrator.Controller.{Controller}
use gh_runner.Orchestrator.Lifecycle.Settings.{atoi_positive, atoi_positive-pos}
use gh_runner.Orchestrator.Lifecycle.{
  is_inactive, audit_answer, run_audit, reap_exited, audit_cycle, set_limit, read_limit,
  refresh_settings, reconcile_rest, reconcile,
}
use gh_runner.Orchestrator.Lifecycle.Keeps.{Keeps, Keeps-refl, reap_all-Keeps}
use gh_runner.Orchestrator.Lifecycle.Loop.{reconcile_rest-Keeps}

module _ (P : Platform) (c : Options) where
  open P use {World}

  -- A refreshed quota is positive, and nothing else changes but the world.
  abbrev Refreshed : Controller World → Controller World → Type 0
  Refreshed s t = (t.tracked ≡ s.tracked) × (t.state ≡ s.state) × (0 < t.global_max_runners)

  set_limit-Refreshed :
      (n : Option ℕ) (s : Controller World)
      → ((m : ℕ) → n ≡ some m → 0 < m)
      → 0 < s.global_max_runners
      → Refreshed s (set_limit P c n s)
  unfolding set_limit
  set_limit-Refreshed none s h pos = (refl, refl, pos)
  set_limit-Refreshed (some n) s h pos = (refl, refl, h n refl)

  read_limit-Refreshed :
      (value : Option GoString) (s : Controller World)
      → 0 < s.global_max_runners
      → Refreshed s (read_limit P c value s)
  unfolding read_limit
  read_limit-Refreshed none s pos = (refl, refl, pos)
  read_limit-Refreshed (some value) s pos =
      set_limit-Refreshed (atoi_positive value) s (atoi_positive-pos value) pos

  Refreshed-if :
      (s : Controller World) (b : Bool) (t : Controller World)
      → 0 < s.global_max_runners
      → Refreshed s t
      → Refreshed s (if b then t else s)
  Refreshed-if s true t pos h = h
  Refreshed-if s false t pos h = (refl, refl, pos)

  refresh_settings-Refreshed :
      (s : Controller World) → 0 < s.global_max_runners → Refreshed s (refresh_settings P c s)
  unfolding refresh_settings
  refresh_settings-Refreshed s pos =
      let (value, w) = P.get_app_setting (codes "total_allowed_runners") s.world in
      let t = read_limit P c value (record s { world = w }) in
      Refreshed-if s c.has_app_settings t pos
        (read_limit-Refreshed value (record s { world = w }) pos)

  abbrev Audited : Controller World → Controller World → Type 0
  Audited s t =
      IsValid t.tracked × (t.state ≡ s.state) × (t.global_max_runners ≡ s.global_max_runners)

  audit_answer-Audited :
      (answer : Option (List RunnerStatus)) (s : Controller World)
      → IsValid s.tracked
      → Audited s (audit_answer P c answer s).1
  unfolding audit_answer
  audit_answer-Audited none s v = (v, refl, refl)
  audit_answer-Audited (some ss) s v = ((audit_sync ss s.tracked v).2, refl, refl)

  Audited-if :
      (s : Controller World) (b : Bool) (x y : Option AuditReport × Controller World)
      → Audited s x.1
      → Audited s y.1
      → Audited s (if b then x else y).1
  Audited-if s true x y a b = a
  Audited-if s false x y a b = b

  pub run_audit-Audited : (s : Controller World) → IsValid s.tracked → Audited s (run_audit P c s).1
  unfolding run_audit
  run_audit-Audited s v =
      let (answer, w) = P.audit_runners s.world in
      Audited-if s c.has_engine (audit_answer P c answer (record s { world = w })) (none, s)
        (audit_answer-Audited answer (record s { world = w }) v) (v, refl, refl)

  pub reap_exited-Keeps :
      (limit : ℕ) (a : Option AuditReport) (s : Controller World)
      → Keeps limit s (reap_exited P c (a, s))
  unfolding reap_exited
  reap_exited-Keeps limit none s = Keeps-refl limit s
  reap_exited-Keeps limit (some report) s = reap_all-Keeps P c limit report.exited s

  reconcile_active :
      (s : Controller World)
      → is_inactive s.state ≡ false
      → c.has_reconciler ≡ true
      → reconcile P c s
        ≡ reconcile_rest P c (refresh_settings P c (reap_exited P c (run_audit P c s)))
  reconcile_active s live rec = unfold reconcile audit_cycle in ground arith

  -- A reconciliation cycle of an active controller never takes the running runners past the larger
  -- of the quotas before and after the cycle, unless the audit at its start found more; it keeps
  -- the controller's state and the shape of the tracking maps.
  pub reconcile-total :
      (s : Controller World)
      → is_inactive s.state ≡ false
      → c.has_reconciler ≡ true
      → IsValid s.tracked
      → 0 < s.global_max_runners
      → let found = (run_audit P c s).1 in
        let t = (reconcile P c s).1 in
        (total_active t.tracked
          ≤ max (total_active found.tracked) (max s.global_max_runners t.global_max_runners))
        × (t.state ≡ s.state)
        × IsValid t.tracked
  reconcile-total s live rec v pos =
      let found = (run_audit P c s).1 in
      let (v1, same1, g1) = run_audit-Audited s v in
      let s1 = reap_exited P c (run_audit P c s) in
      let reaped = reap_exited-Keeps s.global_max_runners (run_audit P c s).0 found g1 v1 in
      let s2 = refresh_settings P c s1 in
      let (tr, same2, pos2) = refresh_settings-Refreshed s1 (rw (reaped.0.1, g1) pos) in
      let v2 : IsValid s2.tracked = rw tr (Moves-IsValid reaped.1 v1) in
      let done = reconcile_rest-Keeps P c s2.global_max_runners s2 refl v2 in
      rw (reconcile_active s live rec) (
        omega (
          arith,
          Moves-total pos reaped.1,
          Moves-total pos2 done.1,
          ap total_active tr,
          done.0.1,
        ),
        cc (done.0.0, same2, reaped.0.0, same1),
        Moves-IsValid done.1 v2,
      )
