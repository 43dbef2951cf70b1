-- ===== src/Building/Models.antt =====
-- building/models.py: blueprints and their validation, the bill of materials.
-- Item names and codes are texts; a `Counter` is a list of keys with counts, oldest key first.
use package.text.Mathlib.Text.{◌==◌ as str_eq}
use ai_wodeshijie.Prelude.{
  ℕ, ◌+◌, ◌-◌, ◌≡◌, String, Bool, true, false, not, ◌&&◌, ◌||◌, Option, List, [], ◌∷◌, arith, leb,
  length, if◌then◌else◌,
}
use ai_wodeshijie.Prelude.Int.{ℤ, pos, pos_part, leb_ℤ, ◌==ℤ◌, ==ℤ→eq}
use ai_wodeshijie.Prelude.Result.{Result, ok, ◌>>◌, guard}
use ai_wodeshijie.Json.{Fields}

pub record Position : Type 0 where
  pub x : ℤ
  pub y : ℤ
  pub z : ℤ

pub record BlueprintBlock : Type 0 where
  pub at : Position
  pub item_id : String
  pub block_id : Option String
  pub face : String
  pub optional : Bool

pub record Blueprint : Type 0 where
  pub blueprint_id : String
  pub name : String
  pub version : ℕ
  pub blocks : List BlueprintBlock
  pub segment_size : ℕ
  pub metadata : Fields

-- equality of two `(x, y, z)` keys
unfoldable pub same_position : Position → Position → Bool
same_position p q = p.x ==ℤ q.x && p.y ==ℤ q.y && p.z ==ℤ q.z

pub same_position→eq : (p q : Position) → same_position p q ≡ true → p ≡ q
unfolding same_position
same_position→eq p q h = ground (arith, ==ℤ→eq p.x q.x, ==ℤ→eq p.y q.y, ==ℤ→eq p.z q.z)

pub same_position_refl : (p : Position) → same_position p p ≡ true
unfolding same_position
same_position_refl p = ground arith

-- `pos in seen`
unfoldable pub is_seen : Position → List Position → Bool
unfolding same_position
is_seen p [] = false
is_seen p (q ∷ seen) = same_position p q || is_seen p seen

-- the loop of `unique_positions`
unfoldable pub unique_from : List Position → List BlueprintBlock → Bool
unfolding is_seen
unique_from seen [] = true
unique_from seen (b ∷ blocks) = not (is_seen b.at seen) && unique_from (b.at ∷ seen) blocks

abbrev pub max_blocks : ℕ
max_blocks = 100000

pub data BlueprintError : Type 0 where
  bad_version bad_segment_size duplicate_position too_many_blocks : BlueprintError

-- The field constraints of the model, then its validator.
unfoldable pub make_blueprint :
    String → String → ℤ → List BlueprintBlock → ℤ → Fields → Result BlueprintError Blueprint
unfolding unique_from
make_blueprint blueprint_id name version blocks segment_size metadata = do
  guard (leb_ℤ (pos 1) version) bad_version
  guard (leb_ℤ (pos 1) segment_size && leb_ℤ segment_size (pos 128)) bad_segment_size
  guard (unique_from [] blocks) duplicate_position
  guard (leb (length blocks) max_blocks) too_many_blocks
  ok (record {
    blueprint_id = blueprint_id;
    name = name;
    version = pos_part version;
    blocks = blocks;
    segment_size = pos_part segment_size;
    metadata = metadata;
  })

abbrev pub Counter : Type 0
Counter = List (String × ℕ)

-- `counter[key]`, which is 0 where the key is missing
unfoldable pub count_of : String → Counter → ℕ
count_of key [] = 0
count_of key ((k, n) ∷ rest) = if str_eq k key then n else count_of key rest

-- `counter[key] += n`
unfoldable pub add_count : String → ℕ → Counter → Counter
add_count key n [] = (key, n) ∷ []
add_count key n ((k, m) ∷ rest) =
    if str_eq k key then (k, m + n) ∷ rest else (k, m) ∷ add_count key n rest

-- `counter[key] -= 1`, which the code runs only where the count is positive
unfoldable pub drop_one : String → Counter → Counter
drop_one key [] = []
drop_one key ((k, m) ∷ rest) =
    if str_eq k key then (k, m - 1) ∷ rest else (k, m) ∷ drop_one key rest

-- `a - b` of two counters keeps the positive differences.
unfoldable pub subtract : Counter → Counter → Counter
unfolding count_of
subtract [] b = []
subtract ((k, n) ∷ rest) b =
    let left = subtract rest b in
    if leb n (count_of k b) then left else (k, n - count_of k b) ∷ left

-- the loop of `material_bill` over the blocks that are not optional
unfoldable pub bill_from : Counter → List BlueprintBlock → Counter
unfolding add_count
bill_from c [] = c
bill_from c (b ∷ blocks) = bill_from (if b.optional then c else add_count b.item_id 1 c) blocks

unfoldable pub material_bill : Blueprint → Counter
unfolding bill_from
material_bill bp = bill_from [] bp.blocks

pub position_eq : (p q : Position) → p.x ≡ q.x → p.y ≡ q.y → p.z ≡ q.z → p ≡ q
position_eq p q ex ey ez = λ i. record { x = ex i; y = ey i; z = ez i }
