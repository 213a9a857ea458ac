-- ===== src/Lib.antt =====
-- ztsdb is a column store for time-series, with a query language in the style of R. This library
-- models the core of its data layer: the vectors that hold columns, the intervals of time, the set
-- operations on both, the indices by which arrays are subset, time zones, durations and periods;
-- and, of the interpreter, the frames that hold its variables and the matching of arguments. The
-- C++ code is below src/, much of it header templates; the paths here are from the repository's
-- root.
--
-- How the parts fit together. A column is a Vector (src/vector_base.hpp) that carries a flag
-- saying that its elements ascend strictly. Set operations (src/vector_set.hpp) read the flag to
-- decide whether to sort first, and go over two vectors in one pass. Instants and intervals
-- (src/timezone/interval.hpp) bring their own comparisons to that pass; two vectors of intervals
-- have passes of their own (src/timezone/vector_set_time.hpp). Arrays are read and written through
-- indices (src/index.hpp), which give positions one by one; positions can be given by the names of
-- a dimension (src/dname.cpp). An array (src/array.hpp) is a vector for each column, and a subset
-- goes over the columns by the indices of all dimensions but the first; the operations along the
-- rows (src/array_ops.hpp) rewrite each column in place. Series are aligned by passes over two
-- vectors of instants (src/timezone/ztime_vector.hpp), which hand the values of each window to a
-- function, the median for one (src/align_funcs.hpp); values are shared by copy-on-write pointers
-- (src/cow_ptr.hpp). A period of months, days and a duration moves an instant or an interval
-- (src/period.cpp), by the offsets of a time zone (src/timezone/zone.cpp); periods hold durations,
-- also as text (src/timezone/ztime.cpp), and both parsers read numbers by the same function
-- (src/misc.cpp). The variables of a query are looked up in a chain of frames (src/env.hpp), and
-- the arguments of a call are matched with those of the function (src/interp.cpp) before they are
-- put into one.
--
-- Which file models which part:
--   Interval.antt      src/timezone/interval.hpp: struct interval, its constructor (make), operator==,
--                      <=, <, >, >= (eq, le, lt, gt, ge), the comparisons with an instant (before,
--                      after), start_lt ... end_ge_start, and the shifts by a duration (plus, minus).
--   Vector.antt        src/vector_base.hpp: struct Vector (Vec), growCapacity, getTotalSize,
--                      operator[] (at), push_back, setv, setv_checkbefore, resize, apply, init,
--                      checkAndSetOrdered; Vector/Edit.antt has insert and erase.
--   Sets.antt          src/vector_set.hpp: the loops of intersect_helper, union_helper and
--                      setdiff_helper; Sets/Sorting.antt has conditional_sort_helper and the three
--                      operations, Sets/Index.antt intersect_idx_helper, Sets/Positions.antt
--                      union_idx_helper and setdiff_idx_helper, Sets/Instants.antt the
--                      comparisons of instants with instants and with intervals.
--   IntervalSets.antt  src/timezone/vector_set_time.hpp: the specialisations for two interval vectors.
--   Index.antt         src/index.hpp: the protocol of getfirst and getnext. Index/Null.antt is NullIndex,
--                      Index/Ints.antt IntIndex_T, Index/Ordered.antt its subassign, Index/Neg.antt
--                      IntIndexNeg_T, Index/Bools.antt BoolIndex, Index/Names.antt NameIndex and
--                      selectNames, Index/Times.antt
--                      DtimeIndex and IntervalIndex, Index/Assign.antt subassign_generic and
--                      subassignScalar_generic.
--   Array.antt         src/array.hpp: struct Array without its names, the constructor from a vector
--                      (make), operator[] (element, element_at), subsetRows, checkdims (check_dims),
--                      and src/index.hpp: getfirstcol, getnextcol; operator() by an index
--                      for each dimension (subset), where none is dropped.
--   Dname.antt         src/dname.cpp and src/dname.hpp: the names of a dimension, construction (make),
--                      assign, addafter, remove and operator[] (at_name, at_position);
--                      Dname/Lookup.antt and Dname/Stale.antt have the theorems.
--   Align.antt         src/timezone/ztime_vector.hpp: align_idx, align_closest, align_func, op_zts.
--   CowPtr.antt        src/cow_ptr.hpp: struct cow_ptr.
--   Text.antt          src/misc.cpp: readNumber; and numbers as streams print them.
--   Duration.antt      src/timezone/ztime.cpp: duration_from_string2 (read) and to_string.
--   Zone.antt          src/timezone/zone.cpp: bs and the three overloads of Zone::getoffset (getoffset,
--                      getoffset_near); src/timezone/tz.hpp: struct state (Zone).
--   Period.antt        src/period.cpp and src/period.hpp: struct period, its parser (read), to_string,
--                      +, -, plus and minus of an instant.
--   Rounding.antt      src/timezone/ztime.cpp: floor, ceiling, floor_tz, ceiling_tz, average_duration,
--                      unqualified_period_from_string (unit_from_string).
--   ArrayOps.antt      src/array_ops.hpp: move_inplace, rotate_inplace, diff_inplace, cumul_inplace,
--                      rev_inplace, locf_inplace.
--   Rolling.antt       src/array_ops.hpp: rollmin_inplace, rollmax_inplace (roll_inplace, by the
--                      comparison); src/base_funcs_roll.cpp: checkParams (check_params).
--                      Rolling/Queue.antt is about the values that the window keeps.
--   Moments.antt       src/array_ops.hpp: rollmean_inplace, rollvar_inplace; Moments/Covariance.antt
--                      rollcov.
--   Arguments.antt     src/ast.hpp: Function::processFormlist; src/interp.cpp: getUnused (unused_from,
--                      next_unused) and processArgs, by its four steps match_named,
--                      match_positional (two of them) and fill_defaults.
--   Median.antt        src/align_funcs.hpp: median_element, max_element, min_element, count_element.
--   Env.antt           src/env.hpp: the structs Frame (base, and closure, native, shadow for
--                      ClosureFrame, BuiltinFrame, ShadowFrame), find, findLocal, findR, add,
--                      addSpecial, addArg, addEllipsis, remove, removeSpecial.
--   Base/Int.antt      integers with a sign over the numbers of Base.antt.
--   Tests.antt         the theorems at concrete inputs.
-- The other child modules hold the theorems about the module above them.
--
-- Conventions. An instant is the number of nanoseconds since the earliest instant that 64 bits can
-- hold, so that orders and equalities are those of the source; additions wrap at 2^64. In zones,
-- durations and periods it is the number of nanoseconds from the epoch, with a sign, and does not
-- overflow. An exception is `none`, and so is a read before the first cell of a vector. A loop
-- over two vectors recurs on what is left of each, or on the number of elements left, so no loop
-- needs fuel but the iteration of an index or of indices, whose theorems say which fuel is enough,
-- and the binary search, which has one more round than there are transitions and never runs out.
-- The printer of a number has one more round than the number. The ring of the rolling mean finds
-- its size in at most 65 rounds, or never (a window above 2^63). Memory that nothing has written
-- is a parameter (`junk`), and so are, for Vector::apply, the values of its function at the
-- elements and the operands (`value`). `std::sort` is a parameter with its documented behaviour
-- (Sets/Sorting.antt). Numbers of elements stay below 2^64 where a theorem says so.
--
-- Not modelled: the interpreter but for its frames and the matching of arguments, the parser,
-- network, display, encoding, file and allocator code, and floating-point arithmetic (it is a
-- parameter of Moments.antt); resize and addprefix of dimension names; the calendar, which is the
-- date library's (the shift by months is a parameter of Period.plus, the calendar one of
-- Rounding.floor_tz); the reading of zone files.
pub mod Base
pub mod Interval
pub mod Vector
pub mod Sets
pub mod IntervalSets
pub mod Dname
pub mod Index
pub mod Array
pub mod ArrayOps
pub mod Rolling
pub mod Moments
pub mod Arguments
pub mod Align
pub mod CowPtr
pub mod Text
pub mod Duration
pub mod Zone
pub mod Period
pub mod Rounding
pub mod Median
pub mod Env
pub mod Tests
