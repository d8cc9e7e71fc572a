-- ===== src/Apps.antt =====
-- apps/shopping/main.py and apps/demo_app/main.py.
mod Tests
use belgrade_os.Base.{
  String, ◌<>◌, ◌==◌, Bool, true, false, ◌&&◌, ◌||◌, Option, none, some, List, [], ◌∷◌,
  if◌then◌else◌,
}
use belgrade_os.Wire.{Json, str, obj, Members, end, member, get_member}
use belgrade_os.World.{Exn, Result, ok, raised, type_error}
use belgrade_os.Prog.{Prog, pure, lift, ◌>>=◌, ◌>>◌}
use belgrade_os.Codec.{Codec}
use belgrade_os.Access.{Python, value_or}
use belgrade_os.Sdk.Context.{Context, opt_json}
use belgrade_os.Sdk.Operations.{text, vault_write, notify, emit}
use belgrade_os.Sdk.App.{Tool, Handler}
use belgrade_os.Sdk.Lifecycle.{Registration, tool, event}

abbrev bad_call : Exn
bad_call = record { fault = type_error; text = "wrong arguments" }

abbrev is_one_of : String → List String → Bool
is_one_of name [] = false
is_one_of name (n ∷ names) = n == name || is_one_of name names

-- Every argument is named by the function, which Python's call asks for.
abbrev takes : List String → Members → Bool
takes names end = true
takes names (member k v ms) = is_one_of k names && takes names ms

abbrev needed : Option Json → Result Json
needed none = raised bad_call
needed (some v) = ok v

-- `**kwargs` for (item_name, quantity="1")
unfoldable pub item_arguments : Members → Result (Json × Json)
unfolding get_member
item_arguments kwargs =
    if takes ("item_name" ∷ "quantity" ∷ []) kwargs
    then elim (needed (get_member "item_name" kwargs)) [
      | raised x ↦ raised x
      | ok item ↦ ok (item, value_or (str "1") (get_member "quantity" kwargs))
    ]
    else raised bad_call

-- `**kwargs` for (user_prompt)
unfoldable pub prompt_argument : Members → Result Json
unfolding get_member
prompt_argument kwargs =
    if takes ("user_prompt" ∷ []) kwargs
    then needed (get_member "user_prompt" kwargs)
    else raised bad_call

-- `upper` is that of Python's texts.
module _ (c : Codec) (py : Python) (upper : String → String) where
  abbrev added : Context → Json → Json → String
  added ctx item quantity =
      "🛒 Added "
      <> py.format quantity
      <> "x "
      <> py.format item
      <> " to the list (User: "
      <> py.format (opt_json ctx.user_id)
      <> ")"

  -- add_item of the shopping app
  unfoldable pub add_item : Tool
  add_item ctx before kwargs = do
    (item, quantity) ← lift (item_arguments kwargs)
    notify c upper ctx (added ctx item quantity) "" "NORMAL" [] none
    pure (
        obj (
          member "status" (str "success") (
            member "item" item
              (member "quantity" quantity (member "tenant" (opt_json ctx.tenant_id) end)))))

  abbrev pub shopping : List Registration
  shopping =
      tool "add_item" "Add an item to the household shopping list" none
        ("ctx" ∷ "item_name" ∷ "quantity" ∷ []) add_item
      ∷ []

  abbrev vault_path : Context → String
  vault_path ctx = "Tests/demo-" <> ctx.trace_id <> ".md"

  abbrev report : String → String
  report prompt =
      "# System Test Result\n\n- **Prompt:** " <> prompt <> "\n- **Result:** Gemini processed: "
      <> prompt

  -- run_full_test of the demo app
  unfoldable pub run_full_test : Tool
  run_full_test ctx before kwargs = do
    user_prompt ← lift (prompt_argument kwargs)
    vault_write c upper ctx (vault_path ctx) (text (report (py.format user_prompt)))
    notify c upper ctx "System Test Complete" ("Summary saved to vault: " <> vault_path ctx) "HIGH"
        ("demo" ∷ "success" ∷ []) none
    emit c upper ctx "demo.test_completed"
        (obj (member "path" (str (vault_path ctx)) (member "status" (str "success") end)))
    pure (obj (member "status" (str "success") (member "vault_path" (str (vault_path ctx)) end)))

  -- It only logs.
  abbrev pub handle_completion : Handler
  handle_completion ctx before payload = pure tt

  abbrev pub demo : List Registration
  demo =
      tool "run_full_test" "Executes an end-to-end system test" none ("ctx" ∷ "user_prompt" ∷ [])
        run_full_test
      ∷ event "demo.test_completed" handle_completion
      ∷ []
