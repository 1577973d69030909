-- ===== src/Almond/EngineProcess/Spawn.antt =====
-- What `start` of the class EngineProcess hands to the child: its environment and its arguments.
use genie_cloud.Base.{
  Bool, true, List, [], ◌∷◌, ◌++◌, some, Text, codes, starts_with, has_text, if◌then◌else◌, lookup,
  insert, ◌≡◌, sym, text_eq_refl, ◌⊎◌, inl, inr, arith, Bool-cases, text_eq, text_eq_iff,
  lookup-insert,
}

abbrev pub Env : Type 0
Env = List (Text × Text)

abbrev pub allowed_envs : List Text
allowed_envs =
    codes "LANG"
    ∷ codes "LOGNAME"
    ∷ codes "USER"
    ∷ codes "PATH"
    ∷ codes "HOME"
    ∷ codes "SHELL"
    ∷ codes "THINGENGINE_PROXY"
    ∷ codes "CI"
    ∷ codes "THINGENGINE_DISABLE_SYSTEMD"
    ∷ []

unfoldable pub env_is_allowed : Text → Bool
env_is_allowed name = if starts_with (codes "LC_") name then true else has_text allowed_envs name

-- The loop over `process.env`.
unfoldable pub add_allowed : Env → Env → Env
add_allowed env [] = env
add_allowed env ((name, value) ∷ rest) =
    add_allowed (if env_is_allowed name then insert name value env else env) rest

-- The loop over `Config.EXTRA_ENVIRONMENT`.
unfoldable pub add_extra : Env → Env → Env
add_extra env [] = env
add_extra env ((key, value) ∷ rest) = add_extra (insert key value env) rest

unfoldable pub make_env : Env → Env → Text → Env
unfolding add_allowed add_extra
make_env process_env extra user_id =
    insert (codes "THINGENGINE_USER_ID") user_id (add_extra (add_allowed [] process_env) extra)

-- `Config`, as far as the arguments name it.
pub record EngineConfig : Type 0 where
  pub thingpedia_url : Text
  pub nl_server_url : Text
  pub oauth_redirect_origin : Text
  pub faq_models : Text
  pub notification_config : Text
  pub supported_languages : List Text

unfoldable pub locale_args : List Text → List Text
locale_args [] = []
locale_args (lang ∷ langs) = codes "--locale" ∷ lang ∷ locale_args langs

-- `_addConfigArgs`
unfoldable pub add_config_args : EngineConfig → List Text → List Text
unfolding locale_args
add_config_args c args =
    args
    ++ (codes "--thingpedia-url"
        ∷ c.thingpedia_url
        ∷ codes "--nl-server-url"
        ∷ c.nl_server_url
        ∷ codes "--oauth-redirect-origin"
        ∷ c.oauth_redirect_origin
        ∷ codes "--faq-models"
        ∷ c.faq_models
        ∷ codes "--notification-config"
        ∷ c.notification_config
        ∷ locale_args c.supported_languages)

-- The paths that the spawned command names.
pub record Paths : Type 0 where
  pub exec_path : Text
  pub exec_argv : List Text
  pub engine_path : Text
  pub sandbox_path : Text
  pub js_prefix : Text
  pub node_path : Text

pub record Spawned : Type 0 where
  pub command : Text
  pub args : List Text
  pub env : Env

unfoldable pub sandbox_env : Paths → Env → Env
sandbox_env p env =
    insert (codes "THINGENGINE_PREFIX")
      (if starts_with (codes "/usr/") p.node_path
        then p.js_prefix
        else p.js_prefix ++ (codes ":" ++ p.node_path))
      env

unfoldable pub spawn : Bool → Bool → EngineConfig → Paths → Env → Spawned
unfolding add_config_args sandbox_env
spawn shared disable_sandbox c p env =
    if shared
    then (record {
      command = p.exec_path;
      args = add_config_args c (p.exec_argv ++ (p.engine_path ∷ codes "--shared" ∷ []));
      env = env;
    })
    else if disable_sandbox
    then (record {
      command = p.exec_path;
      args = add_config_args c (p.exec_argv ++ p.engine_path ∷ []);
      env = env;
    })
    else (record {
      command = p.sandbox_path;
      args = add_config_args c ((p.exec_path ∷ p.exec_argv) ++ p.engine_path ∷ []);
      env = sandbox_env p env;
    })

-- A key of the child's environment comes from somewhere.
abbrev pub Has : Text → Env → Type 0
Has k env = (v : Text) × (lookup k env ≡ some v)

Has-insert : (k j v : Text) (env : Env) → Has k (insert j v env) → (j ≡ k) ⊎ Has k env
Has-insert k j v env (w, e) = elim (Bool-cases (text_eq j k)) [
  | inl same ↦ inl ((text_eq_iff j k).0 same)
  | inr other ↦ inr (w, ground (arith, lookup-insert j k v env))
]

add_allowed_lem :
    (k : Text) (env rest : Env)
    → Has k (add_allowed env rest)
    → (env_is_allowed k ≡ true) ⊎ Has k env
unfolding add_allowed
add_allowed_lem k env [] h = inr h
add_allowed_lem k env ((name, value) ∷ rest) h = elim (Bool-cases (env_is_allowed name)) [
  | inl good ↦ elim (add_allowed_lem k (insert name value env) rest (rw good at h)) [
    | inl a ↦ inl a
    | inr b ↦ elim (Has-insert k name value env b) [
      | inl same ↦ inl (rw same at good)
      | inr old ↦ inr old
    ]
  ]
  | inr bad ↦ add_allowed_lem k env rest (rw bad at h)
]

Has-cons : (k j v : Text) (env : Env) → Has k env → Has k ((j, v) ∷ env)
unfolding lookup
Has-cons k j v env (w, e) = elim (Bool-cases (text_eq j k)) [
  | inl same ↦ (v, rw same)
  | inr other ↦ (w, rw other e)
]

add_extra_lem : (k : Text) (env extra : Env) → Has k (add_extra env extra) → Has k extra ⊎ Has k env
unfolding add_extra lookup
add_extra_lem k env [] h = inr h
add_extra_lem k env ((key, value) ∷ rest) h = elim (add_extra_lem k (insert key value env) rest h) [
  | inl later ↦ inl (Has-cons k key value rest later)
  | inr b ↦ elim (Has-insert k key value env b) [
    | inl same ↦ inl (value, rw (same, text_eq_refl k))
    | inr old ↦ inr old
  ]
]

-- A variable that the environment of a child has is the user's id, one with an allowed name, or one
-- of the extra variables.
pub make_env-Has :
    (process_env extra : Env) (user_id k : Text)
    → Has k (make_env process_env extra user_id)
    → (k ≡ codes "THINGENGINE_USER_ID") ⊎ ((env_is_allowed k ≡ true) ⊎ Has k extra)
unfolding make_env lookup
make_env-Has process_env extra user_id k h =
    elim (Has-insert k (codes "THINGENGINE_USER_ID") user_id
      (add_extra (add_allowed [] process_env) extra) h) [
        | inl same ↦ inl (sym same)
        | inr old ↦ elim (add_extra_lem k (add_allowed [] process_env) extra old) [
          | inl e ↦ inr (inr e)
          | inr a ↦ elim (add_allowed_lem k [] process_env a) [
            | inl good ↦ inr (inl good)
            | inr (v, e) ↦ absurd (no_key k v e)
          ]
        ]
      ]
  where
    no_key : (k v : Text) → lookup k [] ≡ some v → ⊥
    no_key k v e = cc
