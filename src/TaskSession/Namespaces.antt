-- ===== src/TaskSession/Namespaces.antt =====
-- internal/tasksession/store.go: the namespaces of an account. A fresh id is `uuid.NewString()`, and
-- `now` is `time.Now().UTC()`.
use accounts.Base.{
  ℕ, String, Bool, ◌||◌, List, [], ltb, ◌==◌, get_or, keep, sort_by, if◌then◌else◌, Result, ok,
  ◌>>◌, fail_if,
}
use accounts.Base.Word.{slt, sle}
use accounts.Base.Text.{eqs, lts, is_empty, trim}
use accounts.Base.Dict.{lookup, contains, insert, values}
use accounts.TaskSession.Types.{
  Time, is_zero, namespace_personal, Error, already_exists, account_mismatch, invalid_input,
  Namespace, CreateNamespaceInput, Store,
}

abbrev pub default_namespace_max_active : ℕ
default_namespace_max_active = 2

-- The zero value, which a map gives for a missing key.
abbrev pub zero_namespace : Namespace
zero_namespace = record {
  id = "";
  account_id = "";
  slug = "";
  display_name = "";
  max_active_runs = 0;
  created_at = 0;
}

-- What `createNamespaceLocked` writes.
unfoldable pub put_namespace : Namespace → Store → Store
put_namespace ns s = record s {
  namespaces = insert ns.id ns s.namespaces;
  namespaces_by_acct =
      insert ns.account_id
        (insert ns.slug ns.id (get_or (lookup ns.account_id s.namespaces_by_acct) []))
        s.namespaces_by_acct;
}

-- The namespace that an input describes.
unfoldable pub namespace_of : CreateNamespaceInput → Time → Namespace
namespace_of input now = record {
  id = trim input.id;
  account_id = trim input.account_id;
  slug = trim input.slug;
  display_name = trim input.display_name;
  max_active_runs =
      if sle input.max_active_runs 0 || slt default_namespace_max_active input.max_active_runs
      then default_namespace_max_active
      else input.max_active_runs;
  created_at = if is_zero input.created_at then now else input.created_at;
}

unfoldable pub create_namespace :
    CreateNamespaceInput → Time → Store → Result Error (Namespace × Store)
unfolding namespace_of put_namespace
create_namespace input now s = do
  let ns = namespace_of input now
  fail_if (is_empty ns.id || is_empty ns.account_id || is_empty ns.slug) account_mismatch
  fail_if (contains ns.id s.namespaces) already_exists
  fail_if (contains ns.slug (get_or (lookup ns.account_id s.namespaces_by_acct) [])) already_exists
  ok (ns, put_namespace ns s)

-- The id under which the account's personal namespace is filed, "" if there is none.
abbrev personal_id : String → Store → String
personal_id account s =
    get_or (lookup namespace_personal (get_or (lookup account s.namespaces_by_acct) [])) ""

-- The input by which the personal namespace is made.
abbrev pub personal_namespace : String → Time → String → CreateNamespaceInput
personal_namespace account created_at fresh = record {
  id = fresh;
  account_id = account;
  slug = namespace_personal;
  display_name = "Personal";
  max_active_runs = default_namespace_max_active;
  created_at = created_at;
}

unfoldable pub ensure_personal_namespace :
    String → Time → String → Time → Store → Result Error (Namespace × Store)
ensure_personal_namespace account_id created_at fresh now s = do
  let account = trim account_id
  let filed = personal_id account s
  fail_if (is_empty account) account_mismatch
  if is_empty filed
      then create_namespace (personal_namespace account created_at fresh) now s
      else ok (get_or (lookup filed s.namespaces) zero_namespace, s)

abbrev namespace_before : Namespace → Namespace → Bool
namespace_before a b =
    if a.created_at == b.created_at then lts a.id b.id else ltb a.created_at b.created_at

unfoldable pub list_namespaces : String → Store → Result Error (List Namespace)
unfolding sort_by
list_namespaces account_id s = do
  let account = trim account_id
  fail_if (is_empty account) invalid_input
  ok (sort_by namespace_before (keep (λ ns. eqs ns.account_id account) (values s.namespaces)))
