-- ===== src/Py/Json/Tests.antt =====
-- `json.loads` on small texts.
use honest_agent.Prelude.{String, ◌≡◌, refl, true}
use honest_agent.Py.Str.{codes}
use honest_agent.Py.Value.{
  field, end, no_items, item, Value, obj, arr, str, int, pos, negsuc, float, bool, null,
}
use honest_agent.Py.Exec.{json_decode_error, recursion_error, Result, ok, raised}
use honest_agent.Py.Json.Decode.{Interpreter, loads}
use honest_agent.Py.Utf8.{decode_surrogatepass}

abbrev python : Interpreter
python = record { depth = 2; parse_float = λ s. 1 }

abbrev read : String → Result Value
read s = loads python (codes s)

-- White space, containers, and a key that is given twice.
containers_tests :
    (read " [1 , -2,\n\"a\" ] "
      ≡ ok (arr (item (int (pos 1)) (item (int (negsuc 1)) (item (str (codes "a")) no_items)))))
    × (read "{}" ≡ ok (obj end))
    × (read "[ ]" ≡ ok (arr no_items))
    × (read "{\"a\":1,\"b\" : null,\"a\":true}"
        ≡ ok (obj (field (codes "a") (bool true) (field (codes "b") null end))))
    × (read "[[]]" ≡ ok (arr (item (arr no_items) no_items)))
unfolding loads codes decode_surrogatepass
containers_tests = (refl, refl, refl, refl, refl)

-- Numbers and words.
scalars_tests :
    (read "0" ≡ ok (int (pos 0)))
    × (read "1.5" ≡ ok (float 1))
    × (read "-Infinity" ≡ ok (float 0xfff0000000000000))
    × (read "nul" ≡ raised json_decode_error)
    × (read "01" ≡ raised json_decode_error)
unfolding loads codes decode_surrogatepass
scalars_tests = (refl, refl, refl, refl, refl)

-- Trailing commas, missing ones, no document, and containers too deep.
refused_tests :
    (read "[1,]" ≡ raised json_decode_error)
    × (read "[1 2]" ≡ raised json_decode_error)
    × (read "{\"a\" 1}" ≡ raised json_decode_error)
    × (read "{a:1}" ≡ raised json_decode_error)
    × (read "" ≡ raised json_decode_error)
    × (read "{} {}" ≡ raised json_decode_error)
    × (read "[[[" ≡ raised recursion_error)
unfolding loads codes decode_surrogatepass
refused_tests = (refl, refl, refl, refl, refl, refl, refl)
