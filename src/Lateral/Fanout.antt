-- ===== src/Lateral/Fanout.antt =====
-- internal/lateral/engine.go: when the alert for many hosts is raised.
use netprobe_ir.Decode.{Packet}
use netprobe_ir.Model.{Flow, SecurityFinding, is_outbound}
use netprobe_ir.Lateral.{
  Engine, Event, observe, observe_event, fan_out, ntlm_fan_out, finding, gather, note, recent,
  by_actor, by_ntlm, actor_of, service_of, has_ntlm, pid_of,
}
use netprobe_ir.Prelude.{
  ap, str_eq_refl, true, ◌∙◌, Option, sym, ltb, length, refl, ◌+◌, [], leb, ◌&&◌, ◌++◌, arith,
  false, if_cases, str_eq, ◌||◌, Bool, Duration, codes, ◌∷◌, ◌≡◌, Bytes, List, Time, str_eq_iff,
}

pub has : Bytes → List Bytes → Bool
has s [] = false
has s (x ∷ xs) = str_eq x s || has s xs

-- no text stands twice
abbrev pub Different : List Bytes → Type 0
Different [] = Unit
Different (x ∷ xs) = (has x xs ≡ false) × Different xs

-- an event that passes a test and shows the text
pub shows : (Event → Bytes) → (Event → Bool) → Bytes → List Event → Bool
shows view keep s [] = false
shows view keep s (x ∷ xs) = (keep x && str_eq (view x) s) || shows view keep s xs

has-note : (s r : Bytes) (xs : List Bytes) → has r (note s xs) ≡ (str_eq s r || has r xs)
unfolding has note
has-note s r [] = refl
has-note s r (x ∷ xs) = ground (arith, has-note s r xs, str_eq_iff x s)

Different-note : (s : Bytes) (xs : List Bytes) → Different xs → Different (note s xs)
unfolding has note
Different-note s [] d = (refl, tt)
Different-note s (x ∷ xs) (fresh, d) =
    ground (arith, Different-note s xs d, has-note s x xs, str_eq_iff s x, str_eq_iff x s, fresh)

module _ (view : Event → Bytes) (keep : Event → Bool) where
  has-gather :
      (r : Bytes) (xs : List Event) (seen : List Bytes)
      → has r (gather view keep xs seen) ≡ (shows view keep r xs || has r seen)
  unfolding gather shows
  has-gather r [] seen = refl
  has-gather r (x ∷ xs) seen =
      ground (
        arith,
        has-gather r xs seen,
        has-gather r xs (note (view x) seen),
        has-note (view x) r seen,
      )

  Different-gather :
      (xs : List Event) (seen : List Bytes) → Different seen → Different (gather view keep xs seen)
  unfolding gather
  Different-gather [] seen d = d
  Different-gather (x ∷ xs) seen d =
      if_cases Different (keep x) _ _
        (λ _. Different-gather xs (note (view x) seen) (Different-note (view x) seen d))
        λ _. Different-gather xs seen d

shows-recent :
    (view : Event → Bytes) (keep : Event → Bool) (r : Bytes) (now : Time) (window : Duration)
    (xs ys : List Event)
    → shows view keep r (recent now window xs ++ ys)
      ≡ (shows view (λ y. keep y && ltb now (y.t + window)) r xs || shows view keep r ys)
unfolding recent shows
shows-recent view keep r now window [] ys = refl
shows-recent view keep r now window (x ∷ xs) ys =
    ground (arith, shows-recent view keep r now window xs ys)

or_false : (b : Bool) → (b || false) ≡ b
or_false true = refl
or_false false = refl

-- the actor of this flow is the one that is asked for
own_host : (a r ip : Bytes) → ((str_eq a a && str_eq ip r) || false) ≡ str_eq ip r
own_host a r ip = rw (str_eq_refl a) (or_false (str_eq ip r))

-- a finding of the rule
pub raises : Bytes → List SecurityFinding → Bool
raises id [] = false
raises id (f ∷ fs) = str_eq f.rule_id id || raises id fs

abbrev lateral_rule : Bytes
lateral_rule = codes "NP-LAT-1001"

module _ (digest : Bytes → Bytes) (time_text : Time → Bytes) where
  raises-ntlm :
      (e : Engine) (f : Flow) (hosts : List Bytes)
      → raises lateral_rule (ntlm_fan_out digest time_text e f hosts) ≡ false
  unfolding raises ntlm_fan_out finding str_eq
  raises-ntlm e f hosts =
      if_cases (λ fs. raises lateral_rule fs ≡ false) (leb e.cfg.host_threshold (length hosts)) _ _
        (λ _. refl) λ _. refl

  raises-fan_out :
      (e : Engine) (f : Flow) (hosts services : List Bytes) (rest : List SecurityFinding)
      → raises lateral_rule rest ≡ false
      → raises lateral_rule (fan_out digest time_text e f hosts services ++ rest)
        ≡ leb e.cfg.host_threshold (length hosts)
  unfolding raises fan_out finding str_eq
  raises-fan_out e f hosts services rest quiet =
      let enough = leb e.cfg.host_threshold (length hosts) in
      if_cases (λ fs. raises lateral_rule (fs ++ rest) ≡ enough) enough _ _ (λ b. sym b)
        λ b. quiet ∙ sym b

  -- An outbound flow that is new, of a known service and a known actor: the alert for many hosts is
  -- raised exactly where the hosts that this actor has reached are at least as many as the
  -- threshold. The hosts are counted without repetitions: they are the host of this flow and those
  -- of all events of the actor that were kept and are within the window before the flow. What is
  -- kept for the next flow is this flow and all events within the window, of any actor, and no
  -- other: whatever is asked of the events that are kept has the same answer.
  pub observe_lem :
      (e : Engine) (p : Option Packet) (f : Flow)
      → is_outbound f.direction ≡ true
      → str_eq (service_of f) [] ≡ false
      → str_eq (actor_of f) [] ≡ false
      → let (e', findings) = observe digest time_text e p f true in
        let x : Event = record {
          t = f.first_seen;
          actor = actor_of f;
          service = service_of f;
          remote = f.remote.ip;
          pid = pid_of f.process;
          flow = f.id;
          ntlm = has_ntlm p;
        } in
        (hosts : List Bytes) × Different hosts
        × ((r : Bytes)
            → has r hosts ≡ (
                shows
                  (λ y. y.remote)
                  (λ y. str_eq y.actor (actor_of f) && ltb f.first_seen (y.t + e.cfg.window))
                  r
                  e.events
                || str_eq f.remote.ip r))
        × (raises lateral_rule findings ≡ leb e.cfg.host_threshold (length hosts))
        × ((view : Event → Bytes) (keep : Event → Bool) (r : Bytes)
            → shows view keep r e'.events ≡ (
                shows view (λ y. keep y && ltb f.first_seen (y.t + e.cfg.window)) r e.events
                || keep x && str_eq (view x) r))
  unfolding observe observe_event has shows
  observe_lem e p f out svc act =
      let x : Event = record {
        t = f.first_seen;
        actor = actor_of f;
        service = service_of f;
        remote = f.remote.ip;
        pid = pid_of f.process;
        flow = f.id;
        ntlm = has_ntlm p;
      } in
      let a = actor_of f in
      let events = recent f.first_seen e.cfg.window e.events ++ x ∷ [] in
      let hosts = gather (λ v. v.remote) (by_actor a) events [] in
      let services = gather (λ v. v.service) (by_actor a) events [] in
      let ntlm = ntlm_fan_out digest time_text e f (gather (λ v. v.remote) (by_ntlm a) events []) in
      let member : (r : Bytes)
          → has r hosts ≡ (
              shows (λ y. y.remote) (λ y. str_eq y.actor a && ltb f.first_seen (y.t + e.cfg.window))
                r e.events
              || str_eq f.remote.ip r) =
        λ r.
          has-gather (λ v. v.remote) (by_actor a) r events []
          ∙ or_false (shows (λ v. v.remote) (by_actor a) r events)
          ∙ shows-recent (λ v. v.remote) (by_actor a) r f.first_seen e.cfg.window e.events (x ∷ [])
          ∙ ap
              (λ b.
                shows (λ y. y.remote)
                  (λ y. str_eq y.actor a && ltb f.first_seen (y.t + e.cfg.window)) r e.events
                || b)
              (own_host a r f.remote.ip) in
      rw (out, observe)
        (rw (svc, observe)
          (rw (act, observe)
            (
              hosts,
              Different-gather (λ v. v.remote) (by_actor a) events [] tt,
              member,
              raises-fan_out e f hosts services ntlm (raises-ntlm e f _),
              λ view keep r.
                  shows-recent view keep r f.first_seen e.cfg.window e.events (x ∷ [])
                  ∙ ap
                      (λ b.
                        shows view (λ y. keep y && ltb f.first_seen (y.t + e.cfg.window)) r e.events
                        || b)
                      (or_false (keep x && str_eq (view x) r)),
            )))
