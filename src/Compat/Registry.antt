-- ===== src/Compat/Registry.antt =====
-- How src/agentpause/adapters/openai_compat.py builds an adapter: the key, the known providers, and the
-- model string with a provider's prefix.
use agentpause.Prelude.{Option, none, some, [], ◌∷◌, ◌==◌, ◌++◌, if◌then◌else◌}
use agentpause.Prelude.Int.{ℤ, pos}
use agentpause.Prelude.Dict.{Dict, lookup}
use agentpause.Number.{Float}
use agentpause.Errors.{Result, ok, raise, telemetry_error}
use agentpause.Text.{Text, codes, text_instance}
use agentpause.Slots.{rstrip}
use agentpause.Compat.{Adapter}

-- a provider: its API root, and the variable that holds the key
pub record Provider : Type 0 where
  pub base_url : Text
  pub api_key_env : Text

-- `KNOWN_PROVIDERS`
abbrev pub known_providers : Dict Text Provider
known_providers =
    (
      codes "groq",
      record {
        base_url = codes "https://api.groq.com/openai/v1";
        api_key_env = codes "GROQ_API_KEY";
      },
    )
    ∷ (
      codes "openai",
      record { base_url = codes "https://api.openai.com/v1"; api_key_env = codes "OPENAI_API_KEY" },
    )
    ∷ (
      codes "ollama-gateway",
      record {
        base_url = codes "http://127.0.0.1:8787/v1";
        api_key_env = codes "OLLAMA_GATEWAY_API_KEY";
      },
    )
    ∷ []

abbrev pub openai : Provider
openai = record {
  base_url = codes "https://api.openai.com/v1";
  api_key_env = codes "OPENAI_API_KEY";
}

-- `model.partition("/")`, without the separator
unfoldable pub partition : Text → Text × Text
partition [] = ([], [])
partition (c ∷ s) =
    let (before, after) = partition s in if c == 47 then ([], s) else (c ∷ before, after)

-- the keyword arguments that a caller may give
pub record Given : Type 0 where
  pub base_url : Option Text
  pub api_key_env : Option Text

-- `kwargs.setdefault(name, default)`
unfoldable pub or_default : Option Text → Text → Text
or_default none d = d
or_default (some v) d = v

-- The model, the API root and the variable of the key that the constructor gets.
pub record Wiring : Type 0 where
  pub model : Text
  pub base_url : Text
  pub api_key_env : Text

unfoldable pub wired : Text → Provider → Given → Wiring
unfolding or_default
wired model p given = record {
  model = model;
  base_url = or_default given.base_url p.base_url;
  api_key_env = or_default given.api_key_env p.api_key_env;
}

-- a prefix that names a provider is cut off; any other model is OpenAI's
unfoldable pub routed : Text → Text → Option Provider → Given → Wiring
unfolding wired
routed model [] p given = wired model openai given
routed model (c ∷ rest) none given = wired model openai given
routed model (c ∷ rest) (some p) given = wired (c ∷ rest) p given

-- `for_model`
unfoldable pub for_model : Text → Given → Wiring
unfolding routed partition
for_model model given =
    let (prefix, rest) = partition model in routed model rest (lookup prefix known_providers) given

-- where the calls go
unfoldable pub chat_url : Text → Text
unfolding rstrip
chat_url base_url = rstrip base_url ++ codes "/chat/completions"

-- the key that was passed, or the one of the environment; an empty one is none
unfoldable pub key_of : Option Text → Option Text → Option Text
key_of (some []) env = none
key_of (some (c ∷ s)) env = some (c ∷ s)
key_of none none = none
key_of none (some []) = none
key_of none (some (c ∷ s)) = some (c ∷ s)

module _ {F : Type 0} ⦃f : Float F⦄ where
  -- a new adapter, with the detector of refill.py at its defaults
  abbrev unread : Option ℤ → F → Adapter F
  unread fallback max_age = record {
    fallback_remaining = fallback;
    max_age_s = max_age;
    cached = none;
    read_at = none;
    detector = record { min_gap_s = f.lit 2 1; min_votes = 2; window = 3; votes = [] };
    prev_ping = none;
    ping_tokens = pos 0;
    ping_count = 0;
  }

  unfoldable pub built : Option Text → Option ℤ → F → Result F (Adapter F)
  built none fallback max_age = raise telemetry_error
  built (some key) fallback max_age = ok (unread fallback max_age)

  -- `__init__`: without a key there is no adapter
  unfoldable pub init : Option Text → Option Text → Option ℤ → F → Result F (Adapter F)
  unfolding built key_of
  init api_key env fallback max_age = built (key_of api_key env) fallback max_age
