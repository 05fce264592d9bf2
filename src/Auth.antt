-- ===== src/Auth.antt =====
-- src/macp_sdk/auth.py: `AuthConfig` and its two constructors. `none` is `MacpSessionError`.
use macp_sdk_python.Prelude.{Bool, Option, String, false, if◌then◌else◌, none, not, some, ◌==◌}

pub record AuthConfig : Type 0 where
  pub bearer_token : Option String
  pub sender_hint : Option String
  pub expected_sender : Option String

-- `if value:` of an optional text
abbrev pub is_truthy : Option String → Bool
is_truthy none = false
is_truthy (some s) = not (s == "")

-- `a or b` of optional texts
abbrev pub or_option : Option String → Option String → Option String
or_option a b = if is_truthy a then a else b

-- `__init__` and `__post_init__`
unfoldable pub auth_config : Option String → Option String → Option String → Option AuthConfig
auth_config bearer_token sender_hint expected_sender =
    if not (is_truthy bearer_token)
    then none
    else some (record {
      bearer_token = bearer_token;
      sender_hint = sender_hint;
      expected_sender = expected_sender;
    })

unfoldable pub for_dev_agent : String → Option String → Option AuthConfig
unfolding auth_config
for_dev_agent agent_id expected_sender =
    auth_config (some agent_id) (some agent_id) (or_option expected_sender (some agent_id))

unfoldable pub for_bearer : String → Option String → Option String → Option AuthConfig
unfolding auth_config
for_bearer token sender_hint expected_sender =
    auth_config (some token) (or_option sender_hint expected_sender) expected_sender
