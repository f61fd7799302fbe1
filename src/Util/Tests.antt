-- ===== src/Util/Tests.antt =====
-- Tests of the functions of src/util.cpp, and the theorems at concrete inputs.
use autodngconverter.Base.{
  ◌≡◌, refl, [], ◌∷◌, Bytes, codes, some, inl, arith, isspace, bytes_eq, lookup, insert,
}
use autodngconverter.Util.Trim.{trim}
use autodngconverter.Util.SplitSql.{split_sql, step, run}
use autodngconverter.Util.SplitSql.RoundTrip.{
  stop, opening, inside, closing, IsStatement, dump, split_sql-dump,
}
use autodngconverter.Util.Env.{
  assignment, getenv, load_dotenv, lines, first_assigned, or_else, getenv-load_dotenv,
}

trim_both : trim (codes "  a b\t\n") ≡ codes "a b"
unfolding trim
trim_both = refl

split_quoted : split_sql (codes "A ';' ; B\\;C;\n") ≡ codes "A ';'" ∷ codes "B\\;C" ∷ []
unfolding split_sql run step trim
split_quoted = refl

dotenv_first :
    getenv (load_dotenv (some (codes "# c\nA = 'x'\nA=y\n")) []) (codes "A") ≡ some (codes "x")
unfolding load_dotenv assignment getenv trim lines lookup insert bytes_eq
dotenv_first = refl

abbrev quoted : Bytes
quoted = codes "';'"

quoted-IsStatement : IsStatement quoted
unfolding isspace
quoted-IsStatement = record {
  lexes = opening _ refl (inl refl) (
      inside _ (omega arith) (omega arith) (omega arith)
        (closing _ (omega arith) (omega arith) refl refl (stop refl)));
  trimmed = record { front = refl; back = refl };
  ne_nil = cc;
}

split_sql-dump_example : split_sql (dump (quoted ∷ quoted ∷ [])) ≡ quoted ∷ quoted ∷ []
split_sql-dump_example =
    split_sql-dump (quoted ∷ quoted ∷ []) (quoted-IsStatement, (quoted-IsStatement, tt))

abbrev file : Bytes
file = codes "A=x\nB=y"

getenv-load_dotenv_example :
    getenv (load_dotenv (some file) []) (codes "B")
    ≡ or_else (getenv [] (codes "B")) (first_assigned (codes "B") (lines [] file))
getenv-load_dotenv_example = getenv-load_dotenv file (codes "B") [] cc
