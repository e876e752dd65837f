-- ===== src/Log/Drains.antt =====
-- A step of the thread that empties the queue.
use mathlib.Core.List.{append_assoc, Perm}
use mathlib.Core.List.Perm
use mathlib.Core.Path.{subst}
use cpp_server.Prelude.{
  ℕ, ◌<◌, ◌≡◌, refl, sym, ap, ap₂, ◌∙◌, some, none, Option-cases, List, [], ◌∷◌, ◌++◌, arith,
  length, inl, inr, append_nil, ne→==,
}
use cpp_server.BlockQueue.{BlockQueue, pop, take_next, blocked}
use cpp_server.BlockQueue.Refine.{take_next-oldest}
use cpp_server.Http.State.{ok}
use cpp_server.Log.{Log}
use cpp_server.Log.Deliver.{in_hand, strings, fputs_at, strings-append}
use cpp_server.Log.Thread.{async_step}
use cpp_server.Log.Writes.{Ready, Steps, Line, Joins, Queues-same}

pub unchanged : (len m : ℕ) (all old : List Line) → all ≡ old → Joins len m all old []
unchanged len m all old e =
    let e' = e ∙ sym (append_nil old) in (subst (λ z. Perm all z) e' Perm.rfl, λ _. e')

drain_hand :
    (s : Log) (size m : ℕ) (vs : List Line) (line : Line)
    → Ready s size m vs
    → s.single_log ≡ some line
    → Steps s vs (async_step s) size m []
unfolding async_step
drain_hand s size m vs line r held =
    let name = r.open_file.0 in
    let d = s.disk ++ (name, line) ∷ [] in
    record {
      after = record s { single_log = none; disk = d };
      waiting = vs;
      goes =
          simp (held, async_step)
            (fputs_at (record s { single_log = none }) name line r.open_file.1);
      ready = record {
        open_file = r.open_file;
        splits = r.splits;
        buffer = r.buffer;
        sized = r.sized;
        queues = Queues-same s _ m vs refl refl r.queues;
      };
      joins = unchanged _ m _ _ (
          ap (λ z. z ++ vs) (strings-append s.disk ((name, line) ∷ []))
          ∙ append_assoc (strings s.disk) (line ∷ []) vs
          ∙ ap (λ z. strings s.disk ++ (in_hand z ++ vs)) (sym held));
      longest = omega arith;
    }

pop_empty : (q : BlockQueue Line) → q.size ≡ 0 → pop [] q ≡ blocked q
unfolding pop
pop_empty q e = ground (arith, e)

pop_some : (q : BlockQueue Line) → 0 < q.size → pop [] q ≡ take_next q
unfolding pop
pop_some q lt = rw (ne→== q.size 0 (omega arith), pop) refl

drain_queue :
    (s : Log) (size m : ℕ) (vs ws : List Line)
    → vs ≡ ws
    → Ready s size m vs
    → s.single_log ≡ none
    → Steps s vs (async_step s) size m []
unfolding async_step pop
drain_queue s size m vs [] e r free =
    let k = r.queues in
    let empty : k.queue.size ≡ 0 = k.holds.counted ∙ ap length e in
    record {
      after = s;
      waiting = vs;
      goes =
          simp (free, k.queue_at, pop_empty k.queue empty, async_step)
            (ap₂ (λ q h. ok (record s { log_queue = q; single_log = h })) (sym k.queue_at)
              (sym free));
      ready = r;
      joins = unchanged _ m _ _ refl;
      longest = omega arith;
    }
drain_queue s size m vs (line ∷ ws) e r free =
    let k = r.queues in
    let (q', eq, h, same) = take_next-oldest k.holds line ws e in
    let some_line = k.holds.counted ∙ ap length e in
    record {
      after = record s { log_queue = some q'; single_log = some line };
      waiting = ws;
      goes = simp (free, k.queue_at, pop_some k.queue (omega arith) ∙ eq, async_step) refl;
      ready = record {
        open_file = r.open_file;
        splits = r.splits;
        buffer = r.buffer;
        sized = r.sized;
        queues = record {
          async = k.async;
          queue = q';
          queue_at = refl;
          holds = h;
          places = same ∙ k.places;
        };
      };
      joins = unchanged _ m _ _ (
          ap (λ z. strings s.disk ++ z) (sym e)
          ∙ ap (λ z. strings s.disk ++ (in_hand z ++ vs)) (sym free));
      longest = omega (arith, ap length e);
    }

pub drain-Steps :
    (s : Log) (size m : ℕ) (vs : List Line)
    → Ready s size m vs
    → Steps s vs (async_step s) size m []
drain-Steps s size m vs r = elim (Option-cases s.single_log) [
  | inl free ↦ drain_queue s size m vs vs refl r free
  | inr (line, held) ↦ drain_hand s size m vs line r held
]
