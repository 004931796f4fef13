-- ===== src/Sdk/Span/Lifecycle.antt =====
-- The life of a span: its calls before `End`, `End` itself and the calls after it.
use microtel.Prelude.{◌≡◌, refl, ap, ◌∙◌, Bool, true, false, ◌&&◌, List, [], ◌∷◌, ◌++◌, arith}
use microtel.Prelude.Int.{ℤ}
use microtel.Sdk.Span.{
  SdkSpan, Call, call, calls, set_attribute, add_event, add_link, set_status, update_name, end,
  time_or_now,
}

calls-append : (cs ds : List Call) (s : SdkSpan) → calls (cs ++ ds) s ≡ calls ds (calls cs s)
unfolding calls
calls-append [] ds s = refl
calls-append (c ∷ cs) ds s = calls-append cs ds (call c s)

-- After `End` no call changes anything.
call_ended : (c : Call) (s : SdkSpan) → s.ended ≡ true → call c s ≡ s
unfolding call set_attribute add_event add_link set_status update_name end
call_ended (Call.sets k v f) s h = rw h refl
call_ended (Call.events n kvs t now f) s h = rw h refl
call_ended (Call.links c kvs f) s h = rw h refl
call_ended (Call.statuses c d f) s h = rw h refl
call_ended (Call.renames n f) s h = rw h refl
call_ended (Call.ends t now) s h = rw h refl

calls_ended : (cs : List Call) (s : SdkSpan) → s.ended ≡ true → calls cs s ≡ s
unfolding calls
calls_ended [] s h = refl
calls_ended (c ∷ cs) s h = ap (calls cs) (call_ended c s h) ∙ calls_ended cs s h

-- Whether a call is not `End`, and whether none is.
unfoldable pub is_open : Call → Bool
is_open (Call.ends t now) = false
is_open c = true

unfoldable pub all_open : List Call → Bool
all_open [] = true
all_open (c ∷ cs) = is_open c && all_open cs

record Running (s : SdkSpan) : Type 0 where
  open_still : s.ended ≡ false
  none_yet : s.finished ≡ []

call_open : (c : Call) (s : SdkSpan) → s.ended ≡ false → is_open c ≡ true → (call c s).ended ≡ false
unfolding call set_attribute add_event add_link set_status update_name is_open
call_open (Call.sets k v f) s h o = ground arith
call_open (Call.events n kvs t now f) s h o = ground arith
call_open (Call.links c kvs f) s h o = ground arith
call_open (Call.statuses c d f) s h o = ground arith
call_open (Call.renames n f) s h o = ground arith
call_open (Call.ends t now) s h o = cc

call_finished :
    (c : Call) (s : SdkSpan) → s.ended ≡ false → is_open c ≡ true → (call c s).finished ≡ s.finished
unfolding call set_attribute add_event add_link set_status update_name is_open
call_finished (Call.sets k v f) s h o = ground arith
call_finished (Call.events n kvs t now f) s h o = ground arith
call_finished (Call.links c kvs f) s h o = ground arith
call_finished (Call.statuses c d f) s h o = ground arith
call_finished (Call.renames n f) s h o = ground arith
call_finished (Call.ends t now) s h o = cc

call-Running : (c : Call) (s : SdkSpan) → is_open c ≡ true → Running s → Running (call c s)
call-Running c s o r = record {
  open_still = call_open c s r.open_still o;
  none_yet = call_finished c s r.open_still o ∙ r.none_yet;
}

calls-Running :
    (cs : List Call) (s : SdkSpan) → all_open cs ≡ true → Running s → Running (calls cs s)
unfolding calls all_open
calls-Running [] s h r = r
calls-Running (c ∷ cs) s h r =
    calls-Running cs (call c s) (ground arith) (call-Running c s (ground arith) r)

end-finished :
    (t now : ℤ) (s : SdkSpan)
    → Running s
    → ((end t now s).finished ≡ record s.span_record { end_time = time_or_now t now } ∷ [])
      × ((end t now s).ended ≡ true)
unfolding end
end-finished t now s r = rw (r.open_still, r.none_yet) (refl, refl)

-- On a running span that has handed over nothing: the first `End` hands the processor the record as
-- the calls before it left it, with the end time given or read; whatever is called after it, another
-- `End` and the destructor's included, hands over nothing more.
pub calls-finished :
    (before after : List Call) (t now : ℤ) (s : SdkSpan)
    → s.ended ≡ false
    → s.finished ≡ []
    → all_open before ≡ true
    → (calls (before ++ Call.ends t now ∷ after) s).finished
      ≡ record (calls before s).span_record { end_time = time_or_now t now } ∷ []
unfolding calls call
calls-finished before after t now s runs fresh quiet =
    let r = calls-Running before s quiet (record { open_still = runs; none_yet = fresh }) in
    let e = end-finished t now (calls before s) r in
    ap (λ (x : SdkSpan). x.finished) (calls-append before (Call.ends t now ∷ after) s)
    ∙ ap (λ (x : SdkSpan). x.finished) (calls_ended after (end t now (calls before s)) e.1)
    ∙ e.0
