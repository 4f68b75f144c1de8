-- ===== src/Config/Load.antt =====
-- LoadFile and parse of internal/config/loader.go. The file system and the YAML library are
-- parameters.
use Prim.Native.String.{◌++◌}
use autovpa.Common.{String}
use autovpa.Kube.{Result, ok, err, wrapped}
use autovpa.Config.{Config}

-- os.ReadFile and yaml.UnmarshalStrict
pub record Files : Type 0 where
  pub read_file : (path : String) → Result String
  pub unmarshal_strict : (content : String) → Result Config

abbrev pub decoded : Result Config → Result Config
decoded (ok cfg) = ok cfg
decoded (err e) = err (wrapped "parse profiles" e)

module _ (files : Files) where
  unfoldable pub parse : (content : String) → Result Config
  parse content = decoded (files.unmarshal_strict content)

  abbrev pub read : (path : String) → Result String → Result Config
  read path (ok content) = parse content
  read path (err e) = err (wrapped ("read profiles file " ++ path) e)

  unfoldable pub load_file : (path : String) → Result Config
  unfolding parse
  load_file path = read path (files.read_file path)
