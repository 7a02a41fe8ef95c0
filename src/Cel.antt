-- ===== src/Cel.antt =====
-- crates/mw-core/src/cel_match.rs: the context of a CEL match and its evaluation. The CEL library is
-- the parameter `execute`, which runs a program on the variables of a context and returns its value,
-- or `none` for an error. Every integer that the program binds is a natural number.
use microwaf.Prelude.{ℕ, Bool, true, false, Option, none, some, List, [], ◌∷◌, nat_eq, list_eq}
use microwaf.Prelude.Text.{Text, codes, split_once}
use microwaf.HashMap.{HashMap, insert, find_or}
use microwaf.Rule.{CompiledMatch, Rule}

-- `CtxValue`
pub data CtxValue : Type 0 where
  str : Text → CtxValue
  int : ℕ → CtxValue
  bool : Bool → CtxValue
  byte_string : List ℕ → CtxValue

pub record MatchContext : Type 0 where
  pub bindings : HashMap Text CtxValue
  pub sets : HashMap Text (List Text)

-- `MatchContext::default()`
abbrev pub empty_context : MatchContext
empty_context = record { bindings = []; sets = [] }

-- `set_str`, `set_int` and `set_bool`
unfoldable pub set_str : MatchContext → Text → Text → MatchContext
set_str ctx key v = record ctx { bindings = insert key (str v) ctx.bindings }

unfoldable pub set_int : MatchContext → Text → ℕ → MatchContext
set_int ctx key v = record ctx { bindings = insert key (int v) ctx.bindings }

unfoldable pub set_bool : MatchContext → Text → Bool → MatchContext
set_bool ctx key v = record ctx { bindings = insert key (bool v) ctx.bindings }

-- `cel_interpreter::Value`, as far as the program builds and reads it: a map from names to plain
-- values, and a list of texts
pub data CelValue : Type 0 where
  plain : CtxValue → CelValue
  fields : HashMap Text CtxValue → CelValue
  text_lists : HashMap Text (List Text) → CelValue
  other : CelValue

abbrev pub CelContext : Type 0
CelContext = HashMap Text CelValue

-- the first loop of `eval_match`: dotted keys go to the maps of their roots, the others to the top
unfoldable pub split_bindings :
    HashMap Text CtxValue
    → HashMap Text (HashMap Text CtxValue) × HashMap Text CtxValue
    → HashMap Text (HashMap Text CtxValue) × HashMap Text CtxValue
split_bindings [] acc = acc
split_bindings ((k, v) ∷ m) (roots, top) = split_bindings m (elim (split_once b'.' k) [
  | none ↦ (roots, insert k v top)
  | some (root, rest) ↦ (insert root (insert rest v (find_or [] root roots)) roots, top)
])

unfoldable pub add_roots : HashMap Text (HashMap Text CtxValue) → CelContext → CelContext
add_roots [] ctx = ctx
add_roots ((root, m) ∷ roots) ctx = add_roots roots (insert root (fields m) ctx)

unfoldable pub add_top : HashMap Text CtxValue → CelContext → CelContext
add_top [] ctx = ctx
add_top ((k, v) ∷ top) ctx = add_top top (insert k (plain v) ctx)

-- the variables that a program sees
unfoldable pub cel_context : MatchContext → CelContext
cel_context ctx =
    let (roots, top) = split_bindings ctx.bindings ([], []) in
    insert (codes "sets") (text_lists ctx.sets) (add_top top (add_roots roots []))

abbrev is_true : Option CelValue → Bool
is_true (some (plain (bool b))) = b
is_true _ = false

module _ {P : Type 0} (execute : P → CelContext → Option CelValue) where
  -- `eval_match`
  unfoldable pub eval_match : CompiledMatch P → MatchContext → Bool
  eval_match prog ctx = is_true (execute prog.program (cel_context ctx))

  -- `match_ok` of crates/microwaf/src/sniffer.rs
  unfoldable pub match_ok : Rule P → MatchContext → Bool
  match_ok r ctx = elim r.matcher [ none ↦ true | some prog ↦ eval_match prog ctx ]
