-- ===== src/Fsx/Tests/Models.antt =====
-- The steps of the expected file at concrete inputs.
use longan_chkout.Base.{arith}
use longan_chkout.Fsx.File
use longan_chkout.Fsx.File.{File, Same, Same-refl}
use longan_chkout.Fsx.Model.{gen_byte, put_data, collapse_model, insert_model}
use longan_chkout.Fsx.Model.Refines.{
  model, put_data_refines, collapse_model_refines, insert_model_refines,
}
use longan_chkout.Fsx.Tests.{small, start}

put_data_refines_example :
    Same (model (put_data small 30 9 start)) (File.write (model start) 30 (gen_byte small 5) 30 9)
put_data_refines_example = put_data_refines small 30 9 start (omega arith) (omega arith)

collapse_model_refines_example :
    Same (model (collapse_model 4 8 start)) (File.collapse (model start) 4 8)
collapse_model_refines_example = collapse_model_refines 4 8 start (omega arith) (omega arith)

insert_model_refines_example : Same (model (insert_model 4 8 start)) (File.insert (model start) 4 8)
insert_model_refines_example = insert_model_refines 4 8 start (omega arith) (omega arith)
