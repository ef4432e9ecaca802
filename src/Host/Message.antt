-- ===== src/Host/Message.antt =====
-- host/main.c: the message that `handle_access_control` puts together, and its constants.
pub mod RoundTrip
pub mod Content
pub mod Roles
use trust_chain.Base.{ℕ, ◌+◌, ◌-◌, ◌%◌, ◌^◌, Bytes, codes, [], ◌∷◌, if◌then◌else◌, str_eq}
use trust_chain.Memory.{Cells, Buffer, write, u32_bytes}
use trust_chain.Host.Text.{strncpy_bytes}

-- OP_ADD, OP_DELETE, ROLE_ADMIN and ROLE_WRITER as the host defines them
abbrev pub op_add : ℕ
op_add = 0

abbrev pub op_delete : ℕ
op_delete = 1

abbrev pub op_push : ℕ
op_push = 2

abbrev pub role_admin : ℕ
role_admin = 0

abbrev pub role_writer : ℕ
role_writer = 1

-- struct access_control_message
abbrev pub message_size : ℕ
message_size = 1548

abbrev pub pubkey_at : ℕ
pubkey_at = 12

abbrev pub sigkey_at : ℕ
sigkey_at = 524

abbrev pub signature_at : ℕ
signature_at = 1036

abbrev pub max_key_length : ℕ
max_key_length = 512

unfoldable pub op_number : Bytes → ℕ
op_number operation = if str_eq operation (codes "ADD") then op_add else op_delete

unfoldable pub role_number : Bytes → ℕ
role_number role = if str_eq role (codes "ADMIN") then role_admin else role_writer

-- The struct, over what the stack held. The key's terminator is set three times, those of the other
-- two texts never.
unfoldable pub ac_message : Cells → ℕ → Bytes → Bytes → Bytes → Bytes → Bytes → Buffer
ac_message stack repo_id operation role public_key signature_key signature =
    let c₁ = write stack 0 (u32_bytes repo_id) in
    let c₂ = write c₁ 4 (u32_bytes (op_number operation)) in
    let c₃ = write c₂ 8 (u32_bytes (role_number role)) in
    let c₄ = write c₃ pubkey_at (strncpy_bytes (max_key_length - 1) public_key) in
    let c₅ = write c₄ (pubkey_at + (max_key_length - 1)) (0 ∷ []) in
    let c₆ = write c₅ sigkey_at (strncpy_bytes (max_key_length - 1) signature_key) in
    let c₇ = write c₆ (pubkey_at + (max_key_length - 1)) (0 ∷ []) in
    let c₈ = write c₇ signature_at (strncpy_bytes (max_key_length - 1) signature) in
    record { size = message_size; cell = write c₈ (pubkey_at + (max_key_length - 1)) (0 ∷ []) }
