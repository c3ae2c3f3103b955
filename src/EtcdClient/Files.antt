-- ===== src/EtcdClient/Files.antt =====
-- pkg/etcd/helper.go, writeFile and GetTLSConfigPath: the files that hold the certificates of a
-- cluster. The file system is a parameter.
pub mod Stored
use kstone.Base.{
  Bool, true, false, ◌||◌, Option, none, some, List, [], ◌∷◌, ◌++◌, map, ◌==◌, if◌then◌else◌, ℕ,
}
use kstone.Base.Text.{Text, text, text_eq}
use kstone.Base.Effect.{Go, Error, pure, ◌>>=◌}
use kstone.Interfaces.{Result, ok, err}

-- ioutil.TempDir, for a pattern, and ioutil.WriteFile.
pub record FileSystem (W : Type 0) : Type 0 where
  pub temp_dir : Text → Go W (Result Text)
  pub write_file : Text → Text → Go W (Option Error)

abbrev pub cli_cert_file : Text
cli_cert_file = text "client.pem"

abbrev pub cli_key_file : Text
cli_key_file = text "client-key.pem"

abbrev pub cli_ca_file : Text
cli_ca_file = text "ca.pem"

-- strings.ReplaceAll of one byte by another.
unfoldable pub replace_byte : ℕ → ℕ → Text → Text
replace_byte a b s = map (λ c. if c == a then b else c) s

-- filepath.Join of a clean directory, as TempDir answers it, and a file name.
abbrev pub join_path : Text → Text → Text
join_path dir file = dir ++ (text "/" ++ file)

unfoldable pub written : Text → Option Error → Result Text
written p none = ok p
written p (some e) = err e

abbrev pub no_files : Text × Text × Text
no_files = ([], [], [])

unfoldable pub with_paths : Text → Text → Result Text → Result (Text × Text × Text)
with_paths cert_path key_path (err e) = err e
with_paths cert_path key_path (ok ca_path) = ok (ca_path, cert_path, key_path)

module _ {W : Type 0} (fs : FileSystem W) where
  unfoldable pub write_in : Text → Text → Text → Go W (Result Text)
  unfolding written
  write_in dir file content = do
    e ← fs.write_file (join_path dir file) content
    pure (written (join_path dir file) e)

  unfoldable pub after_key : Text → Text → Text → Result Text → Go W (Result (Text × Text × Text))
  unfolding write_in with_paths
  after_key dir ca cert_path (err e) = pure (err e)
  after_key dir ca cert_path (ok key_path) = do
    r ← write_in dir cli_ca_file ca
    pure (with_paths cert_path key_path r)

  unfoldable pub after_cert : Text → Text → Text → Result Text → Go W (Result (Text × Text × Text))
  unfolding write_in after_key
  after_cert dir key ca (err e) = pure (err e)
  after_cert dir key ca (ok cert_path) = do
    r ← write_in dir cli_key_file key
    after_key dir ca cert_path r

  unfoldable pub after_dir : Text → Text → Text → Result Text → Go W (Result (Text × Text × Text))
  unfolding write_in after_cert
  after_dir cert key ca (err e) = pure (err e)
  after_dir cert key ca (ok dir) = do r ← write_in dir cli_cert_file cert; after_cert dir key ca r

  -- The paths of the CA, of the certificate and of the key; no file is written if a part is missing.
  unfoldable pub get_tls_config_path :
      Text → Text → Text → Text → Go W (Result (Text × Text × Text))
  unfolding after_dir replace_byte
  get_tls_config_path cluster cert key ca =
      if text_eq cert [] || (text_eq key [] || text_eq ca [])
      then pure (ok no_files)
      else (do dir ← fs.temp_dir (replace_byte b'/' b'_' cluster); after_dir cert key ca dir)
