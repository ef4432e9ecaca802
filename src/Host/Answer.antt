-- ===== src/Host/Answer.antt =====
-- host/main.c: what the handlers send.
use trust_chain.Base.{
  ℕ, ◌+◌, ◌*◌, ◌^◌, Bytes, codes, [], ◌++◌, length, take, Action, modify, pure, defined, ◌>>=◌,
}
use trust_chain.Memory.{Buffer, load_str, load_u32}
use trust_chain.Decimal.{digits, decimal}
use trust_chain.Host.Libraries.{Libraries}
use trust_chain.Block.Layout

-- The answer as it is printed into `response[2048]`.
unfoldable pub json_response : ℕ → Bytes → Bytes
json_response status json = take 2047 (
    codes "HTTP/1.1 "
    ++ decimal status
    ++ codes " OK\r\nContent-Type: application/json\r\nAccess-Control-Allow-Origin: *\r\n"
    ++ codes "Access-Control-Allow-Methods: GET, POST, OPTIONS\r\n"
    ++ codes "Access-Control-Allow-Headers: Content-Type\r\nContent-Length: "
    ++ decimal (length json)
    ++ codes "\r\n\r\n"
    ++ json)

unfoldable pub send_json_response : {W J : Type 0} → Libraries W J → ℕ → Bytes → Action W (Unit {0})
send_json_response lib status json = modify (lib.write (json_response status json))

-- The JSON text of a genesis block. `%s` reads up to the first NUL, past the field if need be.
unfoldable pub genesis_json : {W : Type 0} → ℕ → Buffer → Action W Bytes
genesis_json repo_id block = do
  height ← defined (load_u32 block Layout.block_height)
  parent_hash ← defined (load_str block Layout.parent_hash)
  op ← defined (load_u32 block Layout.op)
  sigkey ← defined (load_str block Layout.sigkey)
  signature ← defined (load_str block Layout.signature)
  low ← defined (load_u32 block Layout.trust_seconds)
  high ← defined (load_u32 block Layout.trust_millis)
  tee_sig ← defined (load_str block Layout.tee_sig)
  role ← defined (load_u32 block Layout.role)
  pubkey ← defined (load_str block Layout.pubkey)
  pure (
      take 2047 (
        codes "{\"status\":\"success\",\"repository_id\":"
        ++ decimal repo_id
        ++ codes ",\"genesis_block\":{\"block_height\":"
        ++ decimal height
        ++ codes ",\"parent_hash\":\""
        ++ parent_hash
        ++ codes "\",\"op\":"
        ++ decimal op
        ++ codes ",\"sigkey\":\""
        ++ sigkey
        ++ codes "\",\"signature\":\""
        ++ signature
        ++ codes "\",\"trust_timestamp\":"
        ++ digits 20 (low + 2 ^ 32 * high) []
        ++ codes ",\"tee_sig\":\""
        ++ tee_sig
        ++ codes "\",\"role\":"
        ++ decimal role
        ++ codes ",\"pubkey\":\""
        ++ pubkey
        ++ codes "\"}}"))
