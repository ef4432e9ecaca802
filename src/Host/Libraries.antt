-- ===== src/Host/Libraries.antt =====
-- What host/main.c calls and does not implement: the GlobalPlatform TEE Client API, jansson, and the
-- socket. `W` is the state of that world, and `J` a JSON value.
use trust_chain.Base.{ℕ, Bytes, Option, Action}
use trust_chain.Memory.{Buffer}

-- TEEC_Parameter: a temporary memory reference, or a value with its two numbers
pub record Param : Type 0 where
  pub tmpref : Buffer
  pub a : ℕ
  pub b : ℕ

-- TEEC_Operation, as far as the host sets it
pub record Operation : Type 0 where
  pub param_types : ℕ
  pub param0 : Param
  pub param1 : Param
  pub param2 : Param
  pub param3 : Param

pub record Libraries (W J : Type 0) : Type 0 where
  pub initialize_context : Action W (Unit {0})
  pub finalize_context : W → W
  pub open_session : Action W (Unit {0})
  pub close_session : W → W
  -- TEEC_InvokeCommand: the operation comes back with what the TA wrote; an error is a result
  -- other than TEEC_SUCCESS
  pub invoke_command : ℕ → Operation → Action W Operation
  -- json_loads, on a C string: a reference to the root, or none for a text that is not JSON or
  -- without memory; json_decref gives it back
  pub json_loads : Bytes → W → Option J × W
  pub json_decref : J → W → W
  pub json_object_get : J → Bytes → Option J
  -- json_string_value, where json_is_string holds
  pub json_string : J → Option Bytes
  -- json_integer_value as a two's complement of 64 bits, where json_is_integer holds
  pub json_integer : J → Option ℕ
  -- write(2) on the client's socket
  pub write : Bytes → W → W
