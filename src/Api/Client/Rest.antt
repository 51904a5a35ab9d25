-- ===== src/Api/Client/Rest.antt =====
-- Between the operations of the client.
use agent_coderag.Prelude.{
  ℕ, ◌≡◌, refl, sym, ◌∙◌, arith, Bool, true, false, not, ◌&&◌, Option, none, some, Text, inl, inr,
  Bool-cases, Option-cases,
}
use agent_coderag.Core.{
  runtime_error, Outcome-cases, Action, Keeps, Keeps->>=, Keeps->>, Keeps-gets, Keeps-if,
  Keeps-pure, Keeps-lift, Keeps-fail_if,
}
use agent_coderag.Intelligence.Embedder.{Embedder}
use agent_coderag.Intelligence.Factory.{create_embedder}
use agent_coderag.Config.Settings.{DistillerConfig, load}
use agent_coderag.Config.Update.{
  Updates, load_or_update_config, embedding_fields_requested, distill_fields_requested,
}
use agent_coderag.Storage.Db.{Db}
use agent_coderag.Storage.State.{AccessMode, read_only, read_write, Storage}
use agent_coderag.Sync.Build.State.{World}
use agent_coderag.Discovery.Java.{extract_java_api_alone}
use agent_coderag.Discovery.Manager.{
  Provider, python, go, javascript, rust, csharp, get_provider, run_api, extract_api, extract_by,
  wrap_errors, java,
}
use agent_coderag.Api.Client.{
  Client, Ports, is_some, new_client, release, shared, use_storage, close_client, ensure_stack,
  open_storage, opening, with_open, with_storage, metadata_ro_connection, sync, rebuild, search,
  api, invalidate_stack_after_config, config,
}

module _ {F : Type 0} where
  -- No connection is open, and the stack is there as a whole or not at all.
  pub record IsAtRest (c : Client F) : Type 0 where
    pub idle : c.storage ≡ none
    pub quiet : c.connections ≡ 0
    pub parsing : c.parser ≡ is_some c.embedder
    pub distilling : is_some c.distiller ≡ is_some c.embedder

  shared-some : (e own : Option (Embedder F)) → is_some (shared e own) ≡ is_some e
  unfolding shared
  shared-some none own = refl
  shared-some (some e) none = refl
  shared-some (some e) (some own) = refl

  Keeps-use_storage :
      {A : Type 0} (body : Client F → Action (World F) A) (s : Storage F)
      → Keeps IsAtRest (use_storage body s)
  unfolding use_storage release
  Keeps-use_storage body s = record {
    after = λ c i. record {
      idle = refl;
      quiet = let q = i.quiet in omega arith;
      parsing = i.parsing ∙ sym (shared-some c.embedder _);
      distilling = i.distilling ∙ sym (shared-some c.embedder _);
    };
  }

  Keeps-close_client : Keeps IsAtRest close_client
  unfolding close_client
  Keeps-close_client = record {
    after = λ c i. record {
      idle = refl;
      quiet = let q = i.quiet in let n = i.idle in ground arith;
      parsing = refl;
      distilling = refl;
    };
  }

  module _ (ports : Ports F) where
    pub Keeps-ensure_stack : Keeps IsAtRest (ensure_stack ports)
    unfolding ensure_stack
    Keeps-ensure_stack = record {
      after = λ c i. elim (Option-cases c.embedder) [
        | inr (e, h) ↦ rw (ensure_stack, h) i
        | inl h ↦
            elim (Outcome-cases (
              create_embedder ports.respond ports.normalize ports.local_embedder
                (load ports.zero_temperature c.settings))) [
                  | inr (x, k) ↦ rw (ensure_stack, h, k) i
                  | inl (e, k) ↦
                      rw (ensure_stack, h, k)
                        (record {
                          idle = i.idle;
                          quiet = i.quiet;
                          parsing = refl;
                          distilling = refl;
                        })
                ]
      ];
    }

    pub opening-IsAtRest :
        (mode : AccessMode) (c : Client F) → IsAtRest c → IsAtRest (opening ports mode c)
    unfolding opening
    opening-IsAtRest mode c i = record {
      idle = i.idle;
      quiet = i.quiet;
      parsing = i.parsing;
      distilling = i.distilling;
    }

    Keeps-with_open :
        {A : Type 0} (e : Option (Embedder F)) (mode : AccessMode) (wipe : Bool)
        (body : Client F → Action (World F) A)
        → Keeps IsAtRest (with_open ports e mode wipe body)
    unfolding with_open opening
    Keeps-with_open e mode wipe body = record {
      after = λ c i. elim (Outcome-cases (open_storage ports e mode wipe c)) [
        | inr (x, h) ↦ rw (with_open, h) (opening-IsAtRest mode c i)
        | inl (s, h) ↦
            rw (with_open, h)
              ((Keeps-use_storage body s).after (opening ports mode c) (opening-IsAtRest mode c i))
      ];
    }

    Keeps-with_storage :
        {A : Type 0} (mode : AccessMode) (wipe : Bool) (body : Client F → Action (World F) A)
        → Keeps IsAtRest (with_storage ports mode wipe body)
    unfolding with_storage
    Keeps-with_storage mode wipe body = Keeps->> Keeps-ensure_stack (
        Keeps->>= (Keeps-gets {f = λ c. c.embedder}) (λ e.
          Keeps->> (Keeps-fail_if (not (is_some e)) runtime_error)
            (Keeps-with_open e mode wipe body)))

    Keeps-sync :
        (path : Option Text) (all force : Bool) → Keeps IsAtRest (sync ports path all force)
    unfolding sync
    Keeps-sync path all force = Keeps-if _ (Keeps-pure _) (Keeps-with_storage read_write false _)

    Keeps-rebuild : Keeps IsAtRest (rebuild ports)
    unfolding rebuild
    Keeps-rebuild = Keeps-with_storage read_write true _

    Keeps-search : (query : Text) (limit : ℕ) → Keeps IsAtRest (search ports query limit)
    unfolding search
    Keeps-search query limit =
        Keeps->>= (Keeps-with_storage read_only false _) (λ units. Keeps-pure _)

    Keeps-invalidate_stack_after_config :
        (embedding distill : Bool)
        → Keeps IsAtRest (invalidate_stack_after_config ports embedding distill)
    unfolding invalidate_stack_after_config
    Keeps-invalidate_stack_after_config embedding distill = record {
      after = λ c i. elim (Bool-cases (embedding && is_some c.embedder)) [
        | inl e ↦
            rw e (record { idle = i.idle; quiet = i.quiet; parsing = refl; distilling = refl })
        | inr e ↦ elim (Bool-cases (distill && is_some c.distiller)) [
          | inr k ↦ rw (e, k) i
          | inl k ↦
              let had : is_some c.distiller ≡ true = ground arith in
              rw (e, k)
                (record {
                  idle = i.idle;
                  quiet = i.quiet;
                  parsing = i.parsing;
                  distilling = sym had ∙ i.distilling;
                })
        ]
      ];
    }

    Keeps-config : (u : Updates) → Keeps IsAtRest (config ports u)
    unfolding config
    Keeps-config u = record {
      after = λ c i.
          let r = load_or_update_config ports.zero_temperature ports.writing u c.settings in
          (Keeps->>= (Keeps-lift r.0) (λ result.
              Keeps->>
                (Keeps-invalidate_stack_after_config (embedding_fields_requested u)
                  (distill_fields_requested u))
                (Keeps-pure result))).after
            (record c { settings = r.1 })
            (record {
              idle = i.idle;
              quiet = i.quiet;
              parsing = i.parsing;
              distilling = i.distilling;
            });
    }

    Keeps-extract_by :
        (p : Provider) (name : Text)
        → Keeps {S = Client F} IsAtRest (extract_by extract_java_api_alone ports.libraries p name)
    unfolding extract_by extract_java_api_alone
    Keeps-extract_by python name = record { after = λ c i. i }
    Keeps-extract_by java name = record { after = λ c i. i }
    Keeps-extract_by go name = record { after = λ c i. i }
    Keeps-extract_by javascript name = record { after = λ c i. i }
    Keeps-extract_by rust name = record { after = λ c i. i }
    Keeps-extract_by csharp name = record { after = λ c i. i }

    Keeps-wrap_errors :
        {A : Type 0} {m : Action (Client F) A} → Keeps IsAtRest m → Keeps IsAtRest (wrap_errors m)
    unfolding wrap_errors
    Keeps-wrap_errors {m} h = record {
      after = λ c i. elim (Outcome-cases (m c).0) [
        | inl (a, e) ↦ rw (wrap_errors, e) (h.after c i)
        | inr (x, e) ↦ rw (wrap_errors, e) (h.after c i)
      ];
    }

    Keeps-extract_api :
        (name language : Text)
        → Keeps {S = Client F} IsAtRest
            (extract_api extract_java_api_alone ports.libraries name language)
    unfolding extract_api
    Keeps-extract_api name language = elim (Option-cases (get_provider language)) [
      | inl e ↦ rw (extract_api, e) (record { after = λ c i. i })
      | inr (p, e) ↦ rw (extract_api, e) (Keeps-wrap_errors (Keeps-extract_by p name))
    ]

    Keeps-api : (library : Text) (lang : Option Text) → Keeps IsAtRest (api ports library lang)
    unfolding api metadata_ro_connection run_api
    Keeps-api library lang =
        Keeps-if _ (Keeps-with_open none read_only false _)
          (Keeps->>= (Keeps-extract_api library _) (λ report. Keeps-pure _))

    -- A client after any sequence of its operations, each of which may return or raise.
    pub data Reached : Client F → Type 0 where
      created :
          (db : Db F) (db_exists : Bool) (settings : Option (DistillerConfig F))
          → Reached (new_client db db_exists settings)
      synced :
          (path : Option Text) (all force : Bool) (c : Client F)
          → Reached c
          → Reached (sync ports path all force c).1
      rebuilt : (c : Client F) → Reached c → Reached (rebuild ports c).1
      searched :
          (query : Text) (limit : ℕ) (c : Client F)
          → Reached c
          → Reached (search ports query limit c).1
      asked :
          (library : Text) (lang : Option Text) (c : Client F)
          → Reached c
          → Reached (api ports library lang c).1
      configured : (u : Updates) (c : Client F) → Reached c → Reached (config ports u c).1
      closed : (c : Client F) → Reached c → Reached (close_client c).1

    new_client-IsAtRest :
        (db : Db F) (db_exists : Bool) (settings : Option (DistillerConfig F))
        → IsAtRest (new_client db db_exists settings)
    unfolding new_client
    new_client-IsAtRest db db_exists settings = record {
      idle = refl;
      quiet = refl;
      parsing = refl;
      distilling = refl;
    }

    -- Between operations, whatever they returned or raised, the client holds no storage and no
    -- connection, and its embedder, parser and distiller are there all three or not at all.
    pub Reached-IsAtRest : (c : Client F) → Reached c → IsAtRest c
    Reached-IsAtRest _ (created db db_exists settings) = new_client-IsAtRest db db_exists settings
    Reached-IsAtRest _ (synced p a f c r) = (Keeps-sync p a f).after c (Reached-IsAtRest c r)
    Reached-IsAtRest _ (rebuilt c r) = Keeps-rebuild.after c (Reached-IsAtRest c r)
    Reached-IsAtRest _ (searched q n c r) = (Keeps-search q n).after c (Reached-IsAtRest c r)
    Reached-IsAtRest _ (asked l g c r) = (Keeps-api l g).after c (Reached-IsAtRest c r)
    Reached-IsAtRest _ (configured u c r) = (Keeps-config u).after c (Reached-IsAtRest c r)
    Reached-IsAtRest _ (closed c r) = Keeps-close_client.after c (Reached-IsAtRest c r)
