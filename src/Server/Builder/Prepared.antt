-- ===== src/Server/Builder/Prepared.antt =====
-- src/server/core.rs: what `serve` listens with, for the calls that built the server.
use shenron.Common.{
  Option, none, some, List, [], ◌∷◌, ◌++◌, ◌≡◌, refl, sym, ◌∙◌, ap, Text, arith, append-nil,
  append_assoc, subst,
}
use shenron.Error.{Error, Result, ok, err}
use shenron.Middleware.{Middleware}
use shenron.Middleware.Chain.{nest, build_chain-nest}
use shenron.Auth.{methods}
use shenron.Server.Builder.{
  Server, Config, Setting, set, new, host_key, host_key_read, with_middleware, Listening, prepare,
  with_key, listen_on, listen_with, config_of, default_host_key_path, adds_key, adds_middleware,
}

-- The keys that `serve` uses, from those of the builder.
abbrev pub Uses : {K : Type 0} → (Text → Result Error K) → List K → List K → Type 0
Uses {K} load [] used = (k : K) × (load default_host_key_path ≡ ok k) × (used ≡ k ∷ [])
Uses load (k ∷ ks) used = used ≡ k ∷ ks

module _ {K P C V : Type 0} where
  unfoldable pub set_all : List (Setting K P C V) → Server K P C V → Server K P C V
  set_all [] s = s
  set_all (x ∷ xs) s = set_all xs (set x s)

  -- The middleware, and the keys, that the calls add, in their order.
  abbrev adds : Setting K P C V → List (Middleware P V)
  adds (adds_middleware m) = m ∷ []
  adds _ = []

  abbrev pub added : List (Setting K P C V) → List (Middleware P V)
  added [] = []
  added (x ∷ xs) = adds x ++ added xs

  abbrev gives : Setting K P C V → List K
  gives (adds_key k) = k ∷ []
  gives _ = []

  abbrev pub given_keys : List (Setting K P C V) → List K
  given_keys [] = []
  given_keys (x ∷ xs) = gives x ++ given_keys xs

  set-middleware :
      (x : Setting K P C V) (s : Server K P C V) → (set x s).middleware ≡ s.middleware ++ adds x
  unfolding set with_middleware host_key
  set-middleware x s = ground (arith, append-nil s.middleware)

  set-keys : (x : Setting K P C V) (s : Server K P C V) → (set x s).keys ≡ s.keys ++ gives x
  unfolding set with_middleware host_key
  set-keys x s = ground (arith, append-nil s.keys)

  set_all-middleware :
      (xs : List (Setting K P C V)) (s : Server K P C V)
      → (set_all xs s).middleware ≡ s.middleware ++ added xs
  unfolding set_all
  set_all-middleware [] s = sym (append-nil s.middleware)
  set_all-middleware (x ∷ xs) s =
      set_all-middleware xs (set x s)
      ∙ ap (λ ms. ms ++ added xs) (set-middleware x s)
      ∙ append_assoc s.middleware (adds x) (added xs)

  set_all-keys :
      (xs : List (Setting K P C V)) (s : Server K P C V)
      → (set_all xs s).keys ≡ s.keys ++ given_keys xs
  unfolding set_all
  set_all-keys [] s = sym (append-nil s.keys)
  set_all-keys (x ∷ xs) s =
      set_all-keys xs (set x s)
      ∙ ap (λ ks. ks ++ given_keys xs) (set-keys x s)
      ∙ append_assoc s.keys (gives x) (given_keys xs)

  pub record IsReady (load : Text → Result Error K) (keys : List K) (ms : List (Middleware P V))
      (l : Listening K P C V) : Type 0 where
    pub chain : l.server.handler ≡ nest ms
    pub host_keys : Uses load keys l.config.keys
    pub offered : l.config.methods ≡ methods l.server.auth

  abbrev Readies :
      (Text → Result Error K)
      → List K
      → List (Middleware P V)
      → Result Error (Listening K P C V)
      → Type 0
  Readies load keys ms (ok l) = IsReady load keys ms l
  Readies load keys ms (err e) = Unit

  listen_on-Readies :
      (load : Text → Result Error K) (default : Config K) (addr : Option Text) (s : Server K P C V)
      (keys : List K)
      → Uses load keys s.keys
      → Readies load keys s.middleware (listen_on default addr s)
  unfolding listen_on config_of
  listen_on-Readies load default none s keys u = tt
  listen_on-Readies load default (some addr) s keys u = record {
    chain = build_chain-nest s.middleware;
    host_keys = u;
    offered = refl;
  }

  loaded-Readies :
      (load : Text → Result Error K) (default : Config K) (s : Server K P C V) (r : Result Error K)
      → load default_host_key_path ≡ r
      → s.keys ≡ []
      → Readies load [] s.middleware (listen_with default (host_key_read r s))
  unfolding listen_with host_key_read host_key
  loaded-Readies load default s (err e) h z = tt
  loaded-Readies load default s (ok k) h z =
      listen_on-Readies load default s.addr (host_key k s) [] (k, h, ap (λ ks. ks ++ k ∷ []) z)

  with_key-Readies :
      (load : Text → Result Error K) (default : Config K) (s : Server K P C V) (keys : List K)
      → s.keys ≡ keys
      → Readies load keys s.middleware (listen_with default (with_key load keys s))
  unfolding listen_with with_key
  with_key-Readies load default s [] z =
      loaded-Readies load default s (load default_host_key_path) refl z
  with_key-Readies load default s (k ∷ ks) z = listen_on-Readies load default s.addr s (k ∷ ks) z

  -- Where a server that was built by any calls comes to listen, its chain has the added middleware
  -- in the order of the calls, the first outermost; its host keys are those that were given, or the
  -- default key where there were none; and russh is told to offer the methods of its configuration.
  pub prepare-IsReady :
      (load : Text → Result Error K) (default : Config K) (xs : List (Setting K P C V))
      (l : Listening K P C V)
      → prepare load default (set_all xs new) ≡ ok l
      → IsReady load (given_keys xs) (added xs) l
  unfolding prepare new
  prepare-IsReady load default xs l e =
      let s = set_all xs new in
      subst (λ ks. IsReady load ks (added xs) l) (set_all-keys xs new)
        (subst (λ ms. IsReady load s.keys ms l) (set_all-middleware xs new)
          (subst (Readies load s.keys s.middleware) e
            (with_key-Readies load default s s.keys refl)))
