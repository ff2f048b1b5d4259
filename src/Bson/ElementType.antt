-- ===== src/Bson/ElementType.antt =====
-- `bson::spec::ElementType as u8`, the tags of the BSON specification.
use polo_db.Prelude.{ℕ}

abbrev pub double : ℕ
double = 1

abbrev pub string : ℕ
string = 2

abbrev pub document : ℕ
document = 3

abbrev pub array : ℕ
array = 4

abbrev pub binary : ℕ
binary = 5

abbrev pub undefined : ℕ
undefined = 6

abbrev pub object_id : ℕ
object_id = 7

abbrev pub boolean : ℕ
boolean = 8

abbrev pub date_time : ℕ
date_time = 9

abbrev pub null : ℕ
null = 10

abbrev pub regular_expression : ℕ
regular_expression = 11

abbrev pub db_pointer : ℕ
db_pointer = 12

abbrev pub java_script_code : ℕ
java_script_code = 13

abbrev pub symbol : ℕ
symbol = 14

abbrev pub java_script_code_with_scope : ℕ
java_script_code_with_scope = 15

abbrev pub int32 : ℕ
int32 = 16

abbrev pub timestamp : ℕ
timestamp = 17

abbrev pub int64 : ℕ
int64 = 18

abbrev pub decimal128 : ℕ
decimal128 = 19

abbrev pub max_key : ℕ
max_key = 127

abbrev pub min_key : ℕ
min_key = 255
