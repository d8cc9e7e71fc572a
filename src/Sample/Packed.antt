-- ===== src/Sample/Packed.antt =====
-- A codec that gives back what it was given: numbers and texts one after the other, each character
-- as its successor and each text with a zero behind it.
use Prim.Native.Nat.{Ordering, compare}
use Prim.Native.Char.{Char, char, code, nul, IsScalar, IsLt}
use belgrade_os.Base.{
  ℕ, zero, suc, String, ◌≡◌, refl, ap, ◌∙◌, length, Option, none, some, List, [], ◌∷◌,
}
use belgrade_os.Base.Text.{Bytes}
use belgrade_os.Wire
use belgrade_os.Wire.{Task, ThoughtEvent, ScheduleOp}
use belgrade_os.World.{Result, ok, raised}
use belgrade_os.Codec.{Codec}
use belgrade_os.Sample.{codec, bad}

-- When the three comparisons of a number are those of a character.
abbrev Between : Ordering → Ordering → Type 0
Between Ordering.lt p = IsLt p
Between Ordering.eq _ = ⊥
Between Ordering.gt _ = ⊥

abbrev Scalar : Ordering → Ordering → Ordering → Type 0
Scalar Ordering.lt _ _ = Unit
Scalar Ordering.eq o p = Between o p
Scalar Ordering.gt o p = Between o p

abbrev is_lt? : (p : Ordering) → Option (IsLt p)
is_lt? Ordering.lt = some tt
is_lt? Ordering.eq = none
is_lt? Ordering.gt = none

abbrev between? : (o p : Ordering) → Option (Between o p)
between? Ordering.lt p = is_lt? p
between? Ordering.eq p = none
between? Ordering.gt p = none

abbrev scalar? : (o p q : Ordering) → Option (Scalar o p q)
scalar? Ordering.lt p q = some tt
scalar? Ordering.eq p q = between? p q
scalar? Ordering.gt p q = between? p q

is_lt?_lem : (p : Ordering) (s : IsLt p) → is_lt? p ≡ some s
is_lt?_lem Ordering.lt s = refl
is_lt?_lem Ordering.eq s = absurd s
is_lt?_lem Ordering.gt s = absurd s

between?_lem : (o p : Ordering) (s : Between o p) → between? o p ≡ some s
between?_lem Ordering.lt p s = is_lt?_lem p s
between?_lem Ordering.eq p s = absurd s
between?_lem Ordering.gt p s = absurd s

scalar?_lem : (o p q : Ordering) (s : Scalar o p q) → scalar? o p q ≡ some s
scalar?_lem Ordering.lt p q s = refl
scalar?_lem Ordering.eq p q s = between?_lem p q s
scalar?_lem Ordering.gt p q s = between?_lem p q s

abbrev char_or_nul : (n : ℕ) → Option (IsScalar n) → Char
char_or_nul n none = nul
char_or_nul n (some s) = char n s

abbrev char_of : ℕ → Char
char_of n = char_or_nul n (scalar? (compare n 55296) (compare 57343 n) (compare n 1114112))

char_of-code : (c : Char) → char_of (code c) ≡ c
char_of-code (char n s) =
    ap (char_or_nul n) (scalar?_lem (compare n 55296) (compare 57343 n) (compare n 1114112) s)

abbrev put : String → Bytes → Bytes
put String.[] rest = 0 ∷ rest
put (String.◌∷◌ c s) rest = suc (code c) ∷ put s rest

abbrev take : Bytes → String × Bytes
take [] = ("", [])
take (zero ∷ rest) = ("", rest)
take (suc n ∷ rest) = let (s, rest') = take rest in (String.◌∷◌ (char_of n) s, rest')

take-put : (s : String) (rest : Bytes) → take (put s rest) ≡ (s, rest)
take-put String.[] rest = refl
take-put (String.◌∷◌ c s) rest =
    λ i. (String.◌∷◌ (char_of-code c i) (take-put s rest i).0, (take-put s rest i).1)

abbrev put_all : List String → Bytes → Bytes
put_all [] rest = rest
put_all (s ∷ ss) rest = put s (put_all ss rest)

abbrev take_all : ℕ → Bytes → List String × Bytes
take_all zero rest = ([], rest)
take_all (suc n) rest =
    let (s, rest₁) = take rest in let (ss, rest₂) = take_all n rest₁ in (s ∷ ss, rest₂)

take_all-put_all :
    (ss : List String) (rest : Bytes) → take_all (length ss) (put_all ss rest) ≡ (ss, rest)
take_all-put_all [] rest = refl
take_all-put_all (s ∷ ss) rest =
    ap (λ p. let (ss', rest') = take_all (length ss) p.1 in (p.0 ∷ ss', rest'))
      (take-put s (put_all ss rest))
    ∙ ap (λ p. (s ∷ p.0, p.1)) (take_all-put_all ss rest)

abbrev mode_number : Wire.ExecutionMode → ℕ
mode_number Wire.ExecutionMode.unspecified = 0
mode_number Wire.ExecutionMode.trusted = 1
mode_number Wire.ExecutionMode.untrusted = 2
mode_number (Wire.ExecutionMode.unknown n) = suc (suc (suc n))

abbrev mode_of : ℕ → Wire.ExecutionMode
mode_of zero = Wire.ExecutionMode.unspecified
mode_of (suc zero) = Wire.ExecutionMode.trusted
mode_of (suc (suc zero)) = Wire.ExecutionMode.untrusted
mode_of (suc (suc (suc n))) = Wire.ExecutionMode.unknown n

mode_of_lem : (m : Wire.ExecutionMode) → mode_of (mode_number m) ≡ m
mode_of_lem Wire.ExecutionMode.unspecified = refl
mode_of_lem Wire.ExecutionMode.trusted = refl
mode_of_lem Wire.ExecutionMode.untrusted = refl
mode_of_lem (Wire.ExecutionMode.unknown n) = refl

abbrev task_bytes : Task → Bytes
task_bytes t =
    put_all (t.task_id ∷ t.user_id ∷ t.prompt ∷ t.trace_id ∷ t.app_id ∷ t.tenant_id ∷ [])
      (t.created_at_ms ∷ mode_number t.execution_mode ∷ [])

abbrev task_from : List String × Bytes → Result Task
task_from (task_id ∷ user_id ∷ prompt ∷ trace_id ∷ app_id ∷ tenant_id ∷ [], ms ∷ mode ∷ []) =
    ok (record {
      task_id = task_id;
      user_id = user_id;
      prompt = prompt;
      created_at_ms = ms;
      trace_id = trace_id;
      execution_mode = mode_of mode;
      app_id = app_id;
      tenant_id = tenant_id;
    })
task_from _ = raised bad

abbrev type_number : Wire.ThoughtEventType → ℕ
type_number Wire.ThoughtEventType.unspecified = 0
type_number Wire.ThoughtEventType.thinking = 1
type_number Wire.ThoughtEventType.tool_use = 2
type_number Wire.ThoughtEventType.response_chunk = 3
type_number Wire.ThoughtEventType.done = 4
type_number Wire.ThoughtEventType.error = 5
type_number (Wire.ThoughtEventType.unknown n) = suc (suc (suc (suc (suc (suc n)))))

abbrev type_of : ℕ → Wire.ThoughtEventType
type_of zero = Wire.ThoughtEventType.unspecified
type_of (suc zero) = Wire.ThoughtEventType.thinking
type_of (suc (suc zero)) = Wire.ThoughtEventType.tool_use
type_of (suc (suc (suc zero))) = Wire.ThoughtEventType.response_chunk
type_of (suc (suc (suc (suc zero)))) = Wire.ThoughtEventType.done
type_of (suc (suc (suc (suc (suc zero))))) = Wire.ThoughtEventType.error
type_of (suc (suc (suc (suc (suc (suc n)))))) = Wire.ThoughtEventType.unknown n

type_of_lem : (k : Wire.ThoughtEventType) → type_of (type_number k) ≡ k
type_of_lem Wire.ThoughtEventType.unspecified = refl
type_of_lem Wire.ThoughtEventType.thinking = refl
type_of_lem Wire.ThoughtEventType.tool_use = refl
type_of_lem Wire.ThoughtEventType.response_chunk = refl
type_of_lem Wire.ThoughtEventType.done = refl
type_of_lem Wire.ThoughtEventType.error = refl
type_of_lem (Wire.ThoughtEventType.unknown n) = refl

abbrev thought_bytes : ThoughtEvent → Bytes
thought_bytes e =
    put_all (e.task_id ∷ e.user_id ∷ e.content ∷ e.trace_id ∷ []) (type_number e.type ∷ [])

abbrev thought_from : List String × Bytes → Result ThoughtEvent
thought_from (task_id ∷ user_id ∷ content ∷ trace_id ∷ [], k ∷ []) = ok (record {
  task_id = task_id;
  user_id = user_id;
  type = type_of k;
  content = content;
  trace_id = trace_id;
})
thought_from _ = raised bad

abbrev kind_number : Wire.ScheduleOpType → ℕ
kind_number Wire.ScheduleOpType.unspecified = 0
kind_number Wire.ScheduleOpType.upsert = 1
kind_number Wire.ScheduleOpType.delete = 2
kind_number (Wire.ScheduleOpType.unknown n) = suc (suc (suc n))

abbrev kind_of : ℕ → Wire.ScheduleOpType
kind_of zero = Wire.ScheduleOpType.unspecified
kind_of (suc zero) = Wire.ScheduleOpType.upsert
kind_of (suc (suc zero)) = Wire.ScheduleOpType.delete
kind_of (suc (suc (suc n))) = Wire.ScheduleOpType.unknown n

kind_of_lem : (k : Wire.ScheduleOpType) → kind_of (kind_number k) ≡ k
kind_of_lem Wire.ScheduleOpType.unspecified = refl
kind_of_lem Wire.ScheduleOpType.upsert = refl
kind_of_lem Wire.ScheduleOpType.delete = refl
kind_of_lem (Wire.ScheduleOpType.unknown n) = refl

abbrev op_texts : ScheduleOp → List String
op_texts o =
    o.trace_id ∷ o.schedule_id ∷ o.app_id ∷ o.user_id ∷ o.tenant_id ∷ o.cron ∷ o.tool_name
    ∷ o.params_json ∷ []

abbrev schedule_op_bytes : ScheduleOp → Bytes
schedule_op_bytes o = put_all (op_texts o) (kind_number o.op ∷ [])

abbrev op_from : List String × Bytes → Result ScheduleOp
op_from
      (
        trace_id ∷ schedule_id ∷ app_id ∷ user_id ∷ tenant_id ∷ cron ∷ tool_name ∷ params_json ∷ [],
        kind ∷ [],
      ) =
    ok (record {
      trace_id = trace_id;
      op = kind_of kind;
      schedule_id = schedule_id;
      app_id = app_id;
      user_id = user_id;
      tenant_id = tenant_id;
      cron = cron;
      tool_name = tool_name;
      params_json = params_json;
    })
op_from _ = raised bad

abbrev pub packed : Codec
packed = record codec {
  parse_task = λ b. task_from (take_all 6 b);
  task_bytes = task_bytes;
  parse_thought = λ b. thought_from (take_all 4 b);
  thought_bytes = thought_bytes;
  parse_schedule_op = λ b. op_from (take_all 8 b);
  schedule_op_bytes = schedule_op_bytes;
}

pub packed-tasks : (t : Task) → packed.parse_task (packed.task_bytes t) ≡ ok t
packed-tasks t =
    ap task_from (
      take_all-put_all (t.task_id ∷ t.user_id ∷ t.prompt ∷ t.trace_id ∷ t.app_id ∷ t.tenant_id ∷ [])
        _)
    ∙ ap (λ m. ok (record t { execution_mode = m })) (mode_of_lem t.execution_mode)

pub packed-thoughts : (e : ThoughtEvent) → packed.parse_thought (packed.thought_bytes e) ≡ ok e
packed-thoughts e =
    ap thought_from (take_all-put_all (e.task_id ∷ e.user_id ∷ e.content ∷ e.trace_id ∷ []) _)
    ∙ ap (λ k. ok (record e { type = k })) (type_of_lem e.type)

pub packed-ops : (o : ScheduleOp) → packed.parse_schedule_op (packed.schedule_op_bytes o) ≡ ok o
packed-ops o =
    ap op_from (take_all-put_all (op_texts o) _)
    ∙ ap (λ k. ok (record o { op = k })) (kind_of_lem o.op)
