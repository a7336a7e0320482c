-- ===== src/Mcp/Laws/Requests.antt =====
-- Who asks, and where: the Kubernetes calls of the tools.
use backrest_operator.Prelude.{
  ◌≡◌, ◌≢◌, refl, sym, subst, ◌++◌, Bytes, bytes, false, inl, inr, Option, some, List, [], ◌∷◌, All,
  ◌==◌, eq_false_of_ne, Bool-cases,
}
use backrest_operator.Prelude.Dict.{lookup}
use backrest_operator.Effects.{err, Error, plain_error, Trace, on_option}
use backrest_operator.Effects.Keeps.{Keeps, Keeps-pure, Keeps-on_option}
use backrest_operator.Mcp.Calls.{UserIdentity, Args}
use backrest_operator.Mcp.World.{World}
use backrest_operator.Mcp.Auth.{stdio_username}
use backrest_operator.Mcp.Tools.Hosts.{Handler, failed}
use backrest_operator.Mcp.Server.{namespace_arg}
use backrest_operator.Mcp.Tools.{client_for, tool_table, call}
use backrest_operator.Mcp.Laws.Signed.{
  Signed, I, create_snapshot_download-Signed, deleting-Signed, get_host_config-Signed,
  get_snapshot_download-Signed, get_snapshot_download_url-Signed, index_repository-Signed,
  list_snapshots-Signed, making-Signed, reading-Signed, repo_status-Signed, trigger_backup-Signed,
}

abbrev rest_of {ℓ} : {A : Type ℓ} → List A → List A
rest_of [] = []
rest_of (x ∷ xs) = xs

infixr 5 ◌also◌
◌also◌ : {A B : Type 0} → A → B → A × B
a also b = (a, b)

module _ (w : World) (who : Option UserIdentity) (ns : Bytes) (t : Trace) (args : Args) where
  abbrev HandlerSigned : Bytes × Handler → Type 0
  HandlerSigned e = Keeps (I w who ns t) e.1

  -- the tools but the first, which lists the clusters of all namespaces when none is named
  tools-Signed : All HandlerSigned (rest_of (tool_table w who ns args))
  unfolding tool_table
  tools-Signed =
      reading-Signed w who ns t args _ _ _
      also reading-Signed w who ns t args _ _ _
      also reading-Signed w who ns t args _ _ _
      also making-Signed w who ns t args _ _
      also deleting-Signed w who ns t args _
      also reading-Signed w who ns t args _ _ _
      also making-Signed w who ns t args _ _
      also deleting-Signed w who ns t args _
      also trigger_backup-Signed w who ns t args
      also making-Signed w who ns t args _ _
      also reading-Signed w who ns t args _ _ _
      also repo_status-Signed w who ns t args
      also list_snapshots-Signed w who ns t args
      also get_snapshot_download_url-Signed w who ns t args
      also create_snapshot_download-Signed w who ns t args
      also get_snapshot_download-Signed w who ns t args
      also get_host_config-Signed w who ns t args
      also index_repository-Signed w who ns t args
      also tt

  found-Signed :
      (table : List (Bytes × Handler)) (tool : Bytes) (missing : Handler)
      → All HandlerSigned table
      → Keeps (I w who ns t) missing
      → Keeps (I w who ns t) (on_option (lookup tool table) (λ run. run) missing)
  unfolding lookup
  found-Signed [] tool missing all k = k
  found-Signed ((name, run) ∷ rest) tool missing (r, all) k = elim (Bool-cases (name == tool)) [
    | inl e ↦ rw e r
    | inr e ↦ rw e (found-Signed rest tool missing all k)
  ]

  abbrev IsNotFirst : Bytes → List (Bytes × Handler) → Type 0
  IsNotFirst tool [] = Unit
  IsNotFirst tool (e ∷ rest) = (e.0 == tool) ≡ false

  found-later :
      (table : List (Bytes × Handler)) (tool : Bytes) (missing : Handler)
      → IsNotFirst tool table
      → All HandlerSigned (rest_of table)
      → Keeps (I w who ns t) missing
      → Keeps (I w who ns t) (on_option (lookup tool table) (λ run. run) missing)
  unfolding lookup
  found-later [] tool missing h all k = k
  found-later ((name, run) ∷ rest) tool missing h all k =
      rw h (found-Signed rest tool missing all k)

  table-IsNotFirst :
      (tool : Bytes) → tool ≢ bytes "list_clusters" → IsNotFirst tool (tool_table w who ns args)
  unfolding tool_table
  table-IsNotFirst tool other = eq_false_of_ne (bytes "list_clusters") tool (λ e. other (sym e))

  dispatch-Signed :
      (tool : Bytes) (e : Option Error) (x : Error)
      → tool ≢ bytes "list_clusters"
      → Keeps (I w who ns t) (
          on_option e failed
            (on_option (lookup tool (tool_table w who ns args)) (λ run. run) (failed x)))
  dispatch-Signed tool e x other =
      Keeps-on_option e failed _ (λ y. Keeps-pure (err y))
        (found-later (tool_table w who ns args) tool (failed x) (table-IsNotFirst tool other)
          tools-Signed (Keeps-pure (err x)))

client_for-remote :
    (user : UserIdentity) → user.username ≢ stdio_username → client_for user ≡ some user
unfolding client_for
client_for-remote user remote = rw (eq_false_of_ne user.username stdio_username remote) refl

call-SignedFor :
    (w : World) (user : UserIdentity) (tool : Bytes) (args : Args) (t : Trace)
    → tool ≢ bytes "list_clusters"
    → Signed (client_for user) (namespace_arg w args) t (call w user tool args t).1
unfolding call
call-SignedFor w user tool args t other =
    (dispatch-Signed w (client_for user) (namespace_arg w args) t args tool
        (w.client (client_for user)) (plain_error (bytes "unknown tool " ++ tool)) other).at
      t Signed.start

-- Every Kubernetes call of a tool, list_clusters apart, impersonates the user, unless he is the local
-- one, and is in the namespace that the access review was asked about.
pub call-Signed :
    (w : World) (user : UserIdentity) (tool : Bytes) (args : Args) (t : Trace)
    → user.username ≢ stdio_username
    → tool ≢ bytes "list_clusters"
    → Signed (some user) (namespace_arg w args) t (call w user tool args t).1
call-Signed w user tool args t remote other =
    subst (λ c. Signed c (namespace_arg w args) t (call w user tool args t).1)
      (client_for-remote user remote) (call-SignedFor w user tool args t other)
