-- ===== src/Host/Successes.antt =====
-- The answers of host/main.c with status 200.
use trust_chain.Base.{ℕ, ◌+◌, ◌≡◌, Bool, Bytes, codes, if◌then◌else◌}
use trust_chain.Decimal.{digits, decimal}
use trust_chain.Host.Libraries.{Libraries, Operation}
use trust_chain.Host.Text.{starts_with}
use trust_chain.Host.Answer.{json_response, send_json_response}

-- Whether a text is an HTTP answer with status 200.
abbrev pub is_success : Bytes → Bool
is_success = starts_with (codes "HTTP/1.1 200")

-- `successes` is the number of answers with status 200 that were written to clients; nothing else
-- changes it.
pub record CountsSuccesses {W J : Type 0} (lib : Libraries W J) (successes : W → ℕ) : Type 0 where
  pub write :
      (text : Bytes) (w : W)
      → successes (lib.write text w) ≡ (if is_success text then 1 + successes w else successes w)
  pub invoke :
      (cmd_id : ℕ) (o : Operation) (w : W)
      → successes (lib.invoke_command cmd_id o w).1 ≡ successes w
  pub loads : (body : Bytes) (w : W) → successes (lib.json_loads body w).1 ≡ successes w
  pub decref : (j : J) (w : W) → successes (lib.json_decref j w) ≡ successes w

module _ {W J : Type 0} (lib : Libraries W J) (successes : W → ℕ)
    (counts : CountsSuccesses lib successes) (json : Bytes) (w : W) where
  pub sent_200 : successes (send_json_response lib 200 json w).1 ≡ 1 + successes w
  unfolding send_json_response json_response starts_with decimal digits
  sent_200 = counts.write (json_response 200 json) w

  pub sent_400 : successes (send_json_response lib 400 json w).1 ≡ successes w
  unfolding send_json_response json_response starts_with decimal digits
  sent_400 = counts.write (json_response 400 json) w

  pub sent_404 : successes (send_json_response lib 404 json w).1 ≡ successes w
  unfolding send_json_response json_response starts_with decimal digits
  sent_404 = counts.write (json_response 404 json) w

  pub sent_405 : successes (send_json_response lib 405 json w).1 ≡ successes w
  unfolding send_json_response json_response starts_with decimal digits
  sent_405 = counts.write (json_response 405 json) w

  pub sent_500 : successes (send_json_response lib 500 json w).1 ≡ successes w
  unfolding send_json_response json_response starts_with decimal digits
  sent_500 = counts.write (json_response 500 json) w
