-- ===== src/Upgrade/Install/Raises.antt =====
-- Which exceptions `handle_install_component` of core/upgrade/component_installer.py lets through.
use lucid_agent_core.Prelude.{
  String, ◌≡◌, ◌≢◌, refl, Bool, ◌∙◌, sym, ap, ◌⊎◌, inl, inr, Option, some, arith, ◌==◌,
}
use lucid_agent_core.Prelude.Errors.{
  Exn, type_error, validation_error, Outcome, ok, raise, Outcome-cases, ◌>>=◌,
}
use lucid_agent_core.Prelude.Json.{Value, str, dict, Fields, get}
use lucid_agent_core.Prelude.Text.{full_match}
use lucid_agent_core.Upgrade.{World, Env}
use lucid_agent_core.Upgrade.Request.{
  InstallRequest, parse_install, parse_object, required, as_object, validate_install, text_where,
  match_where, is_id_char, is_name_char, is_semver, is_sha256, non_empty,
}
use lucid_agent_core.Upgrade.Install.{InstallResult, handled, handle_install_component}

-- A computation that raises nothing but these two.
abbrev OnlyTwo : {A : Type 0} → Outcome A → Type 0
OnlyTwo m = (x : Exn) → m ≡ raise x → (x ≡ type_error) ⊎ (x ≡ validation_error)

bind-OnlyTwo :
    {A B : Type 0} (m : Outcome A) (f : A → Outcome B)
    → OnlyTwo m
    → ((a : A) → OnlyTwo (f a))
    → OnlyTwo (m >>= f)
bind-OnlyTwo (ok a) f h k x p = k a x p
bind-OnlyTwo (raise y) f h k x p = h x (cc p)

ok-OnlyTwo : {A : Type 0} (a : A) → OnlyTwo (ok a)
ok-OnlyTwo a x q = absurd (cc q)

text_where-OnlyTwo : (p : String → Bool) (v : Option Value) → OnlyTwo (text_where p v)
unfolding text_where
text_where-OnlyTwo p (some (str s)) x q = inr (ground (arith, q))
text_where-OnlyTwo p _ x q = inr (cc q)

match_where-OnlyTwo : (p : String → Bool) (v : Option Value) → OnlyTwo (match_where p v)
unfolding match_where
match_where-OnlyTwo p (some (str s)) x q = inr (ground (arith, q))
match_where-OnlyTwo p _ x q = inl (cc q)

required-OnlyTwo : (k : String) (d : Fields) → OnlyTwo (required k d)
unfolding required
required-OnlyTwo k d x q = inr (ground (arith, q))

as_object-OnlyTwo : (v : Option Value) → OnlyTwo (as_object v)
unfolding as_object
as_object-OnlyTwo (some (dict d)) x q = absurd (cc q)
as_object-OnlyTwo _ x q = inr (cc q)

validate_install-OnlyTwo :
    (e : Env) (rid cid : Value) (source : Fields) → OnlyTwo (validate_install e rid cid source)
unfolding validate_install
validate_install-OnlyTwo e rid cid source =
    bind-OnlyTwo _ _ (text_where-OnlyTwo non_empty (some rid)) (λ r.
      bind-OnlyTwo _ _ (text_where-OnlyTwo (full_match is_id_char) (some cid)) (λ c.
        bind-OnlyTwo _ _ (text_where-OnlyTwo (λ s. s == "github_release") (get "type" source)) (λ t.
          bind-OnlyTwo _ _ (match_where-OnlyTwo (full_match is_name_char) (get "owner" source))
            (λ o.
              bind-OnlyTwo _ _ (match_where-OnlyTwo (full_match is_name_char) (get "repo" source))
                (λ p.
                  bind-OnlyTwo _ _
                    (text_where-OnlyTwo (is_semver e.is_digit) (get "version" source))
                    (λ v.
                      bind-OnlyTwo _ _ (text_where-OnlyTwo is_sha256 (get "sha256" source)) (λ s.
                        ok-OnlyTwo (record {
                          request_id = r;
                          component_id = c;
                          owner = o;
                          repo = p;
                          version = v;
                          sha256 = s;
                        }))))))))

-- The exceptions of the parser: those two, and what `json.loads` raises besides `JSONDecodeError`.
parse_install-exceptions :
    (e : Env) (raw : String) (x : Exn)
    → parse_install e raw ≡ raise x
    → (x ≡ validation_error) ⊎ (x ≡ type_error) ⊎ (e.loads raw ≡ raise x)
unfolding parse_install parse_object
parse_install-exceptions e raw x q = elim (Outcome-cases (e.loads raw)) [
  | inr (y, p) ↦ inr (inr (let same : y ≡ x = cc (p, q) in p ∙ ap raise same))
  | inl (o, p) ↦ elim (decoded o x (ap (λ m. m >>= as_object >>= parsed) (sym p) ∙ q)) [
    | inl t ↦ inr (inl t)
    | inr v ↦ inl v
  ]
]
  where
    parsed : Fields → Outcome InstallRequest
    parsed d = do
      rid ← required "request_id" d
      cid ← required "component_id" d
      source ← required "source" d
      fields ← as_object (some source)
      validate_install e rid cid fields

    decoded : (o : Option Value) → OnlyTwo (as_object o >>= parsed)
    decoded o = bind-OnlyTwo _ _ (as_object-OnlyTwo o) (λ d.
        bind-OnlyTwo _ _ (required-OnlyTwo _ d) (λ r. bind-OnlyTwo _ _ (required-OnlyTwo _ d) (λ c.
          bind-OnlyTwo _ _ (required-OnlyTwo _ d) (λ s.
            bind-OnlyTwo _ _ (as_object-OnlyTwo (some s))
              (λ f. validate_install-OnlyTwo e r c f)))))

-- A command that is not answered: the parser raises `TypeError`, or `json.loads` raises something
-- other than `JSONDecodeError`, and so does the handler, with the world as it was.
pub record Unanswered (e : Env) (raw : String) (w : World) : Type 0 where
  pub exception : Exn
  pub source : (exception ≡ type_error) ⊎ (e.loads raw ≡ raise exception)
  pub parser : parse_install e raw ≡ raise exception
  pub raises : handle_install_component e raw w ≡ (raise exception, w)

-- Every install command is answered, but for a payload on which the parser raises `TypeError`, or
-- `json.loads` an exception other than `JSONDecodeError`; then the handler raises it, and the registry
-- and pip have not been touched.
pub handle_install_component_answers :
    (e : Env) (raw : String) (w : World)
    → ((r : InstallResult) × ((handle_install_component e raw w).0 ≡ ok r)) ⊎ Unanswered e raw w
unfolding handle_install_component handled
handle_install_component_answers e raw w = elim (passed_on (parse_install e raw)) [
  | inl answered ↦ inl answered
  | inr (x, p, n, q) ↦ elim (parse_install-exceptions e raw x p) [
    | inl v ↦ absurd (n v)
    | inr s ↦ inr (record { exception = x; source = s; parser = p; raises = q })
  ]
]
  where
    passed_on :
        (o : Outcome InstallRequest)
        → ((r : InstallResult) × ((handled e raw w o).0 ≡ ok r))
          ⊎ (x : Exn) × (o ≡ raise x) × (x ≢ validation_error) × (handled e raw w o ≡ (raise x, w))
    passed_on (ok req) = inl (_, refl)
    passed_on (raise validation_error) = inl (_, refl)
    passed_on (raise x) = inr (x, refl, λ v. cc v, refl)
