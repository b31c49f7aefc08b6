-- ===== src/Session/Json.antt =====
-- backend/pkg/session/surface.go, the structural comparison of decoded JSON (deepEqualAny) and the
-- blanking of a tool result's content (normalizeToolResultForRewrite).
-- `num` carries a number that identifies the float64. encoding/json itself is the parameter `Codec`.
use deep_seek_harness_x.Prelude.{
  ℕ, suc, String, Bool, true, false, ◌&&◌, Option, none, some, ◌==◌, str_eq, if◌then◌else◌,
}

mutual
  -- A decoded `any`: map[string]any, []any and the scalars.
  pub data Json : Type 0 where
    null : Json
    bool : Bool → Json
    num : ℕ → Json
    str : String → Json
    arr : Items → Json
    obj : Fields → Json

  pub data Items : Type 0 where
    nil : Items
    cons : Json → Items → Items

  pub data Fields : Type 0 where
    end : Fields
    field : String → Json → Fields → Fields

-- json.Unmarshal into `any`, and json.Marshal; `none` is an error.
pub record Codec : Type 0 where
  pub unmarshal : String → Option Json
  pub marshal : Json → Option String

-- `m[k]`
unfoldable pub get : String → Fields → Option Json
get k end = none
get k (field j v r) = if str_eq j k then some v else get k r

-- `m[k] = v`
unfoldable pub put : String → Json → Fields → Fields
put k v end = field k v end
put k v (field j w r) = if str_eq j k then field k v r else field j w (put k v r)

unfoldable pub size_items : Items → ℕ
size_items nil = 0
size_items (cons v r) = suc (size_items r)

unfoldable pub size_fields : Fields → ℕ
size_fields end = 0
size_fields (field k v r) = suc (size_fields r)

abbrev bool_eq : Bool → Bool → Bool
bool_eq true b = b
bool_eq false true = false
bool_eq false false = true

unfoldable mutual
  unfolding get size_items size_fields

  pub deep_equal : Json → Json → Bool
  deep_equal (obj xs) (obj ys) = size_fields xs == size_fields ys && equal_fields xs ys
  deep_equal (arr xs) (arr ys) = size_items xs == size_items ys && equal_items xs ys
  deep_equal null null = true
  deep_equal (bool a) (bool b) = bool_eq a b
  deep_equal (num a) (num b) = a == b
  deep_equal (str a) (str b) = str_eq a b
  deep_equal _ _ = false

  pub equal_items : Items → Items → Bool
  equal_items nil _ = true
  equal_items (cons v r) (cons w s) = deep_equal v w && equal_items r s
  equal_items (cons v r) nil = false

  pub equal_fields : Fields → Fields → Bool
  equal_fields end ys = true
  equal_fields (field k v r) ys =
      elim (get k ys) [ none ↦ false | some w ↦ deep_equal v w ] && equal_fields r ys

-- The loop of normalizeToolResultForRewrite over the content blocks.
unfoldable pub blank_blocks : Items → Option Items
unfolding put
blank_blocks nil = some nil
blank_blocks (cons (obj fs) r) = elim (blank_blocks r) [
  | none ↦ none
  | some r' ↦ some (cons (obj (put "content" (str "") fs)) r')
]
blank_blocks (cons v r) = none

as_object : Option Json → Option Fields
as_object (some (obj fs)) = some fs
as_object _ = none

as_array : Option Json → Option Items
as_array (some (arr xs)) = some xs
as_array _ = none

infixl 5 ◌>>=◌
abbrev ◌>>=◌ : {A B : Type 0} → Option A → (A → Option B) → Option B
none >>= f = none
some a >>= f = f a

-- `none` is the `false` result.
unfoldable pub normalize_tool_result : Codec → String → Option String
unfolding as_object as_array get put blank_blocks
normalize_tool_result c raw = do
  fields ← as_object (c.unmarshal raw)
  message ← as_object (get "message" fields)
  content ← as_array (get "content" message)
  blanked ← blank_blocks content
  c.marshal (obj (put "message" (obj (put "content" (arr blanked) message)) fields))

unfoldable pub deep_equal_json : Codec → String → String → Bool
unfolding deep_equal
deep_equal_json c a b = elim (c.unmarshal a) [
  | none ↦ false
  | some av ↦ elim (c.unmarshal b) [ none ↦ false | some bv ↦ deep_equal av bv ]
]

unfoldable pub tool_result_rewrite_equal : Codec → String → String → Bool
unfolding normalize_tool_result deep_equal_json
tool_result_rewrite_equal c original replacement = elim (normalize_tool_result c original) [
  | none ↦ false
  | some a ↦ elim (normalize_tool_result c replacement) [
    | none ↦ false
    | some b ↦ deep_equal_json c a b
  ]
]
