-- ===== src/EtcdClient/Command.antt =====
-- pkg/etcd/helper.go, AddMemberWithCmd: the arguments of etcdctl. Running it is a parameter.
use kstone.Base.{
  Bool, true, false, not, ◌&&◌, Option, none, some, List, [], ◌∷◌, ◌++◌, if◌then◌else◌, get_elem?,
}
use kstone.Base.Text.{Text, text, text_eq, split}
use kstone.Base.Effect.{Go, Error, panic}

unfoldable pub element : Option (List Text) → Option Text
element none = none
element (some items) = get_elem? items 2

abbrev pub split_host : Option Text → Option (List Text)
split_host none = none
split_host (some item) = some (split b'/' item)

-- strings.Split(strings.Split(peerURL, ":")[1], "/")[2]; `none` is an index out of range.
unfoldable pub member_name : Text → Option Text
unfolding element
member_name peer_url = element (split_host (get_elem? (split b':' peer_url) 1))

abbrev pub show_bool : Bool → Text
show_bool true = text "true"
show_bool false = text "false"

unfoldable pub tls_args : Text → Text → Text → List Text
tls_args ca cert key =
    if not (text_eq ca []) && (not (text_eq cert []) && not (text_eq key []))
    then (text "--cacert=" ++ ca) ∷ (text "--cert=" ++ cert) ∷ (text "--key=" ++ key) ∷ []
    else []

unfoldable pub member_add_args : Bool → (endpoints peer_url ca cert key name : Text) → List Text
unfolding tls_args
member_add_args is_learner endpoints peer_url ca cert key name =
    tls_args ca cert key
    ++ ((text "--endpoints=" ++ endpoints)
        ∷ text "member"
        ∷ text "add"
        ∷ name
        ∷ (text "--peer-urls=" ++ peer_url)
        ∷ (text "--learner=" ++ show_bool is_learner)
        ∷ [])

unfoldable pub run_named :
    {W : Type 0}
    → (Text → List Text → Go W (Option Error))
    → (Text → List Text)
    → Option Text
    → Go W (Option Error)
run_named run args none = panic
run_named run args (some name) = run (text "etcdctl") (args name)

-- `run` is exec.Command with Output.
unfoldable pub add_member_with_cmd :
    {W : Type 0}
    → (Text → List Text → Go W (Option Error))
    → Bool
    → (endpoints peer_url ca cert key : Text) → Go W (Option Error)
unfolding run_named member_name member_add_args
add_member_with_cmd run is_learner endpoints peer_url ca cert key =
    run_named run (member_add_args is_learner endpoints peer_url ca cert key) (member_name peer_url)
