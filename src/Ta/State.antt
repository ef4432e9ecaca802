-- ===== src/Ta/State.antt =====
-- The globals of ta/trust_chain_ta.c, its structs, and what a command handler can reach: the globals,
-- the platform, and the parameters of the call. The parameters are shared with the caller, so what
-- was written to them stays written when the handler ends with an error; the caller does not write
-- to them during a call.
use trust_chain.Base.{
  ℕ, ◌+◌, ◌*◌, Option, none, some, leb, ◌==◌, if◌then◌else◌, Action, ok, err, modify,
  item_not_found,
}
use trust_chain.Memory.{Cells, Buffer}
use trust_chain.KeyList.{KeyList}

-- struct repo_metadata. `names` holds `latest_hash[64]` at 0 and `founder_key[512]` behind it; a key
-- list is NULL only while `init_repo` runs.
pub record Repo : Type 0 where
  pub block_height : ℕ
  pub names : Buffer
  pub admin_keys : Option KeyList
  pub writer_keys : Option KeyList

abbrev pub latest_hash : ℕ
latest_hash = 0

abbrev pub founder_key : ℕ
founder_key = 64

abbrev pub names_size : ℕ
names_size = 576

abbrev pub max_repo_id : ℕ
max_repo_id = 1000

-- TEE_Param: the view that its type selects
pub record TeeParam : Type 0 where
  pub memref : Buffer
  pub a : ℕ

-- `stack` is what the stack holds where a handler's uninitialised locals lie.
pub record Ta (W : Type 0) : Type 0 where
  pub world : W
  pub stack : Cells
  pub repo_num : ℕ
  pub repositories : ℕ → Option Repo
  pub param0 : TeeParam
  pub param1 : TeeParam
  pub param2 : TeeParam
  pub param3 : TeeParam

-- OP_ADD, OP_DELETE, OP_PUSH, OP_PR, ROLE_ADMIN and ROLE_WRITER of ta/include/trust_chain_ta.h
abbrev pub op_add : ℕ
op_add = 0

abbrev pub op_delete : ℕ
op_delete = 1

abbrev pub op_push : ℕ
op_push = 2

abbrev pub op_pr : ℕ
op_pr = 3

abbrev pub role_admin : ℕ
role_admin = 1

abbrev pub role_writer : ℕ
role_writer = 2

-- TEE_PARAM_TYPES, and the TEE_PARAM_TYPE_ constants of the GlobalPlatform API
abbrev pub tee_param_types : ℕ → ℕ → ℕ → ℕ → ℕ
tee_param_types t₀ t₁ t₂ t₃ = t₀ + 16 * t₁ + 256 * t₂ + 4096 * t₃

abbrev pub no_param : ℕ
no_param = 0

abbrev pub value_input : ℕ
value_input = 1

abbrev pub value_output : ℕ
value_output = 2

abbrev pub memref_input : ℕ
memref_input = 5

abbrev pub memref_output : ℕ
memref_output = 6

abbrev pub memref_inout : ℕ
memref_inout = 7

module _ {W : Type 0} where
  -- A call into the modules that keep no state of their own.
  abbrev pub on_world : {A : Type 0} → Action W A → Action (Ta W) A
  on_world m s = let (r, w) = m s.world in (r, record s { world = w })

  -- `repositories[rep_id] = repo`
  abbrev pub put_repo : ℕ → Option Repo → Ta W → Ta W
  put_repo rep_id repo s = record s {
    repositories = λ i. if i == rep_id then repo else s.repositories i;
  }

  abbrev pub set_repo : ℕ → Repo → Action (Ta W) (Unit {0})
  set_repo rep_id repo = modify (put_repo rep_id (some repo))

  -- An uninitialised local of the given size.
  abbrev pub local : ℕ → Action (Ta W) Buffer
  local size s = (ok (record { size = size; cell = s.stack }), s)

  abbrev pub set_memref0 : Buffer → Action (Ta W) (Unit {0})
  set_memref0 b = modify (λ s. record s { param0 = record { memref = b; a = s.param0.a } })

  abbrev pub set_memref1 : Buffer → Action (Ta W) (Unit {0})
  set_memref1 b = modify (λ s. record s { param1 = record { memref = b; a = s.param1.a } })

  abbrev pub set_memref2 : Buffer → Action (Ta W) (Unit {0})
  set_memref2 b = modify (λ s. record s { param2 = record { memref = b; a = s.param2.a } })

  abbrev pub set_memref3 : Buffer → Action (Ta W) (Unit {0})
  set_memref3 b = modify (λ s. record s { param3 = record { memref = b; a = s.param3.a } })

  abbrev pub set_value1 : ℕ → Action (Ta W) (Unit {0})
  set_value1 x = modify (λ s. record s { param1 = record { memref = s.param1.memref; a = x } })

  unfoldable pub validate_and_get_repo : ℕ → Action (Ta W) Repo
  validate_and_get_repo rep_id s =
      if leb max_repo_id rep_id
      then (err item_not_found, s)
      else elim (s.repositories rep_id) [ none ↦ (err item_not_found, s) | some r ↦ (ok r, s) ]
